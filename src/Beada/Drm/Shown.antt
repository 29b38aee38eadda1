-- ===== src/Beada/Drm/Shown.antt =====
-- The DRM child and the parent together: any sequence of their calls, and what a commit shows.
use packages.Base.{
  ℕ, ◌*◌, ◌≡◌, refl, ◌∙◌, Bool, true, false, Option, none, some, List, [], ◌∷◌, length,
  length-replicate, get_or, not, ◌||◌, ◌==◌, ltb, if◌then◌else◌, if-cases, arith,
}
use packages.Base.Errno.{Ret}
use packages.Mpro.Drm.Pixel.{Lut}
use packages.Beada.Link.Device.{Link, Host, Bulk}
use packages.Beada.Link.Steps.{
  IsInStep, Step, frame, flushes, opens, closes, Run, start, more, Run-IsInStep,
}
use packages.Beada.Link.Conversation.{IsPartial}
use packages.Beada.Drm.Picture.{length-blit_rect}
use packages.Beada.Drm.Pipe.{
  Screen, Commit, apply_color_mgmt, blit_of, whole, draw, pixel_list, send_buffer, blank_buf,
  pipe_enable, pipe_disable, pipe_update, drm_resume_handler, rotation_swaps_dims, apply_rotation,
  rotation_store, rotation_map, noblank_store,
}

-- The buffer has one item for each pixel of the panel, and the dimensions are the panel's as the
-- rotation shows it.
pub record IsSound (s : Screen) : Type 0 where
  pub full : length s.shadow ≡ s.panel_w * s.panel_h
  pub across : s.width ≡ (if rotation_swaps_dims s.rotation then s.panel_h else s.panel_w)
  pub down : s.height ≡ (if rotation_swaps_dims s.rotation then s.panel_w else s.panel_h)

pub length-pixel_list : (ps : List ℕ) → length (pixel_list ps) ≡ length ps * 2
unfolding pixel_list
length-pixel_list [] = refl
length-pixel_list (p ∷ ps) = omega (arith, length-pixel_list ps)

-- Sending a buffer of the panel's size is one call of the parent.
send_buffer-Run :
    {host : Host} {l : Link} (m : Link) (pixels : List ℕ) (s : Screen)
    → length pixels ≡ s.panel_w * s.panel_h
    → Run host l m
    → Run host l (send_buffer pixels s m)
unfolding send_buffer
send_buffer-Run m pixels s full r = more r (
    frame (pixel_list pixels) (s.panel_w * s.panel_h * 2) s.panel_w s.panel_h
      (omega (arith, length-pixel_list pixels, full)))

blank_buf-Run :
    {host : Host} {l : Link} (m : Link) (s : Screen)
    → Run host l m
    → Run host l (send_buffer (blank_buf s) s m)
blank_buf-Run m s r =
    send_buffer-Run m (blank_buf s) s (length-replicate (s.panel_w * s.panel_h) 0) r

pub apply_color_mgmt-IsSound :
    (extract : ℕ → ℕ) (changed : Bool) (table : Option Lut) (s : Screen)
    → IsSound s
    → IsSound (apply_color_mgmt extract changed table s)
unfolding apply_color_mgmt
apply_color_mgmt-IsSound extract false table s h = h
apply_color_mgmt-IsSound extract true none s h = record {
  full = h.full;
  across = h.across;
  down = h.down;
}
apply_color_mgmt-IsSound extract true (some t) s h = record {
  full = h.full;
  across = h.across;
  down = h.down;
}

pub draw-IsSound : (k : Commit) (s : Screen) → IsSound s → IsSound (draw k s)
unfolding draw
draw-IsSound k s h = record {
  full = length-blit_rect (blit_of s k) (whole k) s.shadow ∙ h.full;
  across = h.across;
  down = h.down;
}

-- Both parts of the state after a call.
abbrev Good : Host → Link → Screen × Link → Type 0
Good host l (s, m) = IsSound s × Run host l m

module _ (host : Host) (s : Screen) (l : Link) (h : IsSound s) where
  pipe_update-Good :
      (extract : ℕ → ℕ) (tag body : Bulk) (k : Commit)
      → IsPartial tag 270
      → Good host l (pipe_update host extract tag body k s l)
  unfolding pipe_update
  pipe_update-Good extract tag body k part =
      let colored = apply_color_mgmt extract k.color_mgmt_changed k.gamma_lut s in
      let sound = apply_color_mgmt-IsSound extract k.color_mgmt_changed k.gamma_lut s h in
      let drawn = draw-IsSound k colored sound in
      let drained = more start (flushes tag body part) in
      if-cases (Good host l) (not k.has_fb || (not k.active || not k.entered)) (λ out. (h, start))
        (λ on.
          if-cases (Good host l) (not k.mapped) (λ out. (sound, drained))
            (λ mapped. (
              drawn,
              send_buffer-Run _ (draw k colored).shadow (draw k colored) drawn.full drained,
            )))

  pipe_disable-Good :
      (tag body blank_tag blank_body : Bulk)
      → IsPartial tag 270
      → IsPartial blank_tag 270
      → Good host l (pipe_disable host tag body blank_tag blank_body s l)
  unfolding pipe_disable
  pipe_disable-Good tag body blank_tag blank_body part blank_part =
      let drained = more start (flushes tag body part) in
      (
        record { full = h.full; across = h.across; down = h.down },
        more
            (if-cases (Run host l) (not s.noblank)
              (λ on. more (blank_buf-Run _ s drained) (flushes blank_tag blank_body blank_part))
              (λ off. drained))
            closes,
      )

  resume_handler-Good : Good host l (drm_resume_handler s l)
  unfolding drm_resume_handler
  resume_handler-Good =
      if-cases (Good host l) s.shadow_valid (λ on. (h, send_buffer-Run l s.shadow s h.full start))
        (λ off.
          if-cases (Good host l) (not s.noblank) (λ on. (h, blank_buf-Run l s start))
            (λ kept. (h, start)))

apply_rotation-IsSound : (r : ℕ) (s : Screen) → IsSound s → IsSound (apply_rotation r s)
unfolding apply_rotation
apply_rotation-IsSound r s h =
    if-cases IsSound (s.rotation == r) (λ same. h)
      (λ other. record { full = h.full; across = refl; down = refl })

rotation_store-IsSound :
    (ret : Ret) (val : ℕ) (s : Screen) → IsSound s → IsSound (rotation_store ret val s).1
unfolding rotation_store
rotation_store-IsSound ret val s h =
    if-cases (λ (r : Ret × Screen). IsSound r.1) (not (ret == 0)) (λ bad. h)
      (λ parsed.
        if-cases (λ (r : Ret × Screen). IsSound r.1) (not (ltb val 8)) (λ out. h)
          (λ valid. apply_rotation-IsSound (get_or rotation_map val 0) s h))

-- A call of the child or of the parent, on both states.
pub data Call (host : Host) (s : Screen) (l : Link) : Screen × Link → Type 0 where
  update :
      (extract : ℕ → ℕ) (tag body : Bulk) (k : Commit)
      → IsPartial tag 270
      → Call host s l (pipe_update host extract tag body k s l)
  disable :
      (tag body blank_tag blank_body : Bulk)
      → IsPartial tag 270
      → IsPartial blank_tag 270
      → Call host s l (pipe_disable host tag body blank_tag blank_body s l)
  enable : (pm : Ret) → Call host s l (pipe_enable pm s l)
  restore : Call host s l (drm_resume_handler s l)
  rotate : (ret : Ret) (val : ℕ) → Call host s l ((rotation_store ret val s).1, l)
  keep_last : (ret : Ret) (val : Bool) → Call host s l ((noblank_store ret val s).1, l)
  parent : {m : Link} → Step host l m → Call host s l (s, m)

pub data Calls (host : Host) (s : Screen) (l : Link) : Screen → Link → Type 0 where
  none_yet : Calls host s l s l
  then_call :
      {t u : Screen} {m n : Link} → Calls host s l t m → Call host t m (u, n) → Calls host s l u n

Call-Good :
    {host : Host} {s : Screen} {l : Link} {r : Screen × Link}
    → IsSound s
    → Call host s l r
    → Good host l r
unfolding pipe_enable noblank_store
Call-Good {host} {s} {l} h (update extract tag body k part) =
    pipe_update-Good host s l h extract tag body k part
Call-Good {host} {s} {l} h (disable tag body blank_tag blank_body part blank_part) =
    pipe_disable-Good host s l h tag body blank_tag blank_body part blank_part
Call-Good h (enable pm) = (h, more start (opens pm))
Call-Good {host} {s} {l} h restore = resume_handler-Good host s l h
Call-Good {host} {s} h (rotate ret val) = (rotation_store-IsSound ret val s h, start)
Call-Good {host} {s} h (keep_last ret val) = (
  if-cases (λ (r : Ret × Screen). IsSound r.1) (not (ret == 0)) (λ bad. h)
      (λ ok. record { full = h.full; across = h.across; down = h.down }),
  start,
)
Call-Good h (parent s) = (h, more start s)

-- From a panel's buffer of the panel's size, dimensions of the rotation and a state in step with the
-- device, over any sequence of commits, enables and disables, rotation and noblank stores, resume handlers
-- and calls of the parent, whatever the transfers answer, if a START tag whose transfer fails has not
-- arrived in full: the buffer keeps that size, the dimensions stay those of the rotation, and the driver
-- stays in step with the device, which gets START tags and pixels whole or, where a transfer fails, in
-- part, in the order and of the size that it expects.
pub Calls-IsInStep :
    {host : Host} {s : Screen} {l : Link} {t : Screen} {m : Link}
    → IsSound s
    → IsInStep host l
    → Calls host s l t m
    → IsSound t × IsInStep host m
Calls-IsInStep sound h none_yet = (sound, h)
Calls-IsInStep sound h (then_call r c) =
    let before = Calls-IsInStep sound h r in
    let after = Call-Good before.0 c in (after.0, Run-IsInStep before.1 after.1)
