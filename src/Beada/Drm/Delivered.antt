-- ===== src/Beada/Drm/Delivered.antt =====
-- A commit and the worker that follows it: what arrives at the device.
use packages.Base.{
  take-length, ℕ, ◌*◌, ◌≤◌, ◌<◌, ◌≡◌, refl, ◌∙◌, Bool, true, false, Option, none, some, List, ◌∷◌,
  length, take, get_or, not, ◌&&◌, ◌||◌, ◌==◌, if◌then◌else◌, if-cases, arith,
}
use packages.Base.Errno.{Ret}
use packages.Mpro.Drm.Pixel.{Lut}
use packages.Beada.Link.Device.{to_panel, Link, Host, Bulk, bulk_out, bulk_result, check_alive}
use packages.Beada.Link.Frames.{
  max_frame_bytes, start_tag, send_pixels, after_start, pl_send, inc, count_frame, xfer_worker,
  send_frame, flush_frame_transfer,
}
use packages.Beada.Drm.Coord.{IsFitting}
use packages.Beada.Drm.Colour.{place, start_of, AreBytes, IsByteTable, HasColour}
use packages.Beada.Drm.Picture.{blit_rect-places}
use packages.Beada.Drm.Pipe.{
  Screen, Commit, apply_color_mgmt, blit_of, whole, draw, pixel_list, send_buffer, pipe_update,
  rotation_swaps_dims,
}
use packages.Beada.Drm.Shown.{length-pixel_list}

-- A device that answers: the driver knows it as alive, and both transfers succeed in full.
pub record IsAnswering (l : Link) (tag body : Bulk) (len : ℕ) : Type 0 where
  pub connected : l.disconnected ≡ false
  pub awake : l.suspended ≡ false
  pub tagged : bulk_result tag 270 ≡ 0
  pub received : bulk_result body len ≡ 0

abbrev is_fresh : Link → Bool
is_fresh l = l.cached_w == 0 && l.cached_h == 0

-- The wire after a worker for a frame of its session.
worker-wire :
    (host : Host) (tag body : Bulk) (l : Link)
    → IsAnswering l tag body l.xfer_len
    → l.xfer_len ≤ max_frame_bytes
    → (is_fresh l || ((l.xfer_w == l.cached_w) && (l.xfer_h == l.cached_h))) ≡ true
    → ((xfer_worker host tag body l).wire
        ≡ to_panel (take l.xfer_len l.xfer_src)
          ∷ (if is_fresh l then start_tag host l.xfer_w l.xfer_h ∷ l.wire else l.wire))
      × ((xfer_worker host tag body l).stats_displayed ≡ inc l.stats_displayed)
unfolding xfer_worker count_frame pl_send after_start send_pixels bulk_out check_alive
worker-wire host tag body l ok small session =
    ground (arith, ok.connected, ok.awake, ok.tagged, ok.received)

-- A commit that is drawn on a panel of `pw` by `ph`, shown as `w` by `h`, whose frames the parent takes
-- in the session that it has.
pub record IsShowable (k : Commit) (l : Link) (tag body : Bulk) (pw ph w h rot size : ℕ)
    : Type 0 where
  pub has_fb : k.has_fb ≡ true
  pub active : k.active ≡ true
  pub entered : k.entered ≡ true
  pub mapped : k.mapped ≡ true
  pub fb_w : k.fb_w ≡ w
  pub fb_h : k.fb_h ≡ h
  pub full : size ≡ pw * ph
  pub across : w ≡ (if rotation_swaps_dims rot then ph else pw)
  pub down : h ≡ (if rotation_swaps_dims rot then pw else ph)
  pub wide : 0 < pw
  pub high : 0 < ph
  pub small : pw * ph * 2 ≤ max_frame_bytes
  pub idle : l.work ≡ false
  pub answering : IsAnswering l tag body (pw * ph * 2)
  pub session : (is_fresh l || ((pw == l.cached_w) && (ph == l.cached_h))) ≡ true

abbrev pub CanShow : Commit → Screen → Link → Bulk → Bulk → Type 0
CanShow k s l tag body =
    IsShowable k l tag body s.panel_w s.panel_h s.width s.height s.rotation (length s.shadow)

-- The next packet is a buffer of the panel's size, after a START tag if the session is fresh, and one
-- more frame is counted as displayed.
abbrev IsSent : Host → Bulk → Bulk → Link → ℕ → ℕ → List ℕ → Link → Type 0
IsSent host tag body l pw ph pixels staged =
    let sent = xfer_worker host tag body staged in
    (sent.wire
      ≡ to_panel (pixel_list pixels)
        ∷ (if is_fresh l then start_tag host pw ph ∷ l.wire else l.wire))
    × (sent.stats_displayed ≡ inc l.stats_displayed)

send_buffer-IsSent :
    (host : Host) (tag body : Bulk) (k : Commit) (s : Screen) (l : Link) (pixels : List ℕ)
    → CanShow k s l tag body
    → length pixels ≡ s.panel_w * s.panel_h
    → IsSent host tag body l s.panel_w s.panel_h pixels (send_buffer pixels s l)
unfolding send_buffer send_frame
send_buffer-IsSent host tag body k s l pixels h full =
    let len = s.panel_w * s.panel_h * 2 in
    let sized : len ≡ length (pixel_list pixels) = omega (arith, length-pixel_list pixels, full) in
    let whole_list : take len (pixel_list pixels) ≡ pixel_list pixels =
      rw (sized) (take-length (pixel_list pixels)) in
    if-cases (λ (r : Ret × Link). IsSent host tag body l s.panel_w s.panel_h pixels r.1)
      (s.panel_w == 0 || (s.panel_h == 0 || not (len == s.panel_w * s.panel_h * 2)))
      (λ bad. absurd (ground (arith, h.wide, h.high, bad)))
      (λ ok. rw whole_list at (
        worker-wire host tag body
          (record l {
            stats_submitted = inc l.stats_submitted;
            xfer_src = pixel_list pixels;
            xfer_len = len;
            xfer_w = s.panel_w;
            xfer_h = s.panel_h;
            work = true;
          })
          (record {
            connected = h.answering.connected;
            awake = h.answering.awake;
            tagged = h.answering.tagged;
            received = h.answering.received;
          })
          h.small h.session))

-- The gamma of a commit: the commit's own table in 8 bits if it brings one, none if it takes the table
-- away, and else that of the commits before.
abbrev pub gamma_of : (ℕ → ℕ) → Bool → Option Lut → Screen → Option Lut
gamma_of extract false table s = if s.gamma_valid then some s.lut else none
gamma_of extract true none s = none
gamma_of extract true (some table) s = some (λ channel v. extract (table channel v))

abbrev pub commit_gamma : (ℕ → ℕ) → Commit → Screen → Option Lut
commit_gamma extract k s = gamma_of extract k.color_mgmt_changed k.gamma_lut s

-- What a commit leaves: its picture is sent, and the pixel (x, y) of the framebuffer is in the panel's
-- buffer at its place and with its colour under the gamma.
abbrev pub IsDelivered :
    Host → Bulk → Bulk → Commit → Option Lut → Screen → Link → ℕ → ℕ → Screen × Link → Type 0
IsDelivered host tag body k gamma s l x y (drawn, staged) =
    IsSent host tag body l s.panel_w s.panel_h drawn.shadow staged
    × HasColour k.bgr gamma k.is_xrgb k.bytes (start_of k.is_xrgb k.pitch x y)
        (get_or drawn.shadow (place s.rotation s.panel_w s.panel_h x y) 0)

draw-IsDelivered :
    (host : Host) (tag body : Bulk) (k : Commit) (s : Screen) (l : Link) (x y : ℕ)
    → CanShow k s l tag body
    → AreBytes k.bytes
    → IsByteTable (if s.gamma_valid then some s.lut else none)
    → x < s.width
    → y < s.height
    → IsDelivered host tag body k
        (if s.gamma_valid then some s.lut else none)
        s
        l
        x
        y
        (draw k s, send_buffer (draw k s).shadow (draw k s) l)
unfolding draw blit_of rotation_swaps_dims send_buffer
draw-IsDelivered host tag body k s l x y h bytes table hx hy =
    let fit : IsFitting (blit_of s k) = record { across = h.across; down = h.down } in
    let shown =
      blit_rect-places (blit_of s k) (whole k) x y s.shadow fit bytes table h.wide h.high
        (omega (arith, h.full)) (omega arith) (omega (arith, h.fb_w)) (omega (arith, h.fb_w))
        (omega arith) (omega (arith, h.fb_h)) (omega (arith, h.fb_h)) in
    (send_buffer-IsSent host tag body k s l (draw k s).shadow h (shown.1 ∙ h.full), shown.0)

-- The same after the colours of the commit are applied.
colored-IsDelivered :
    (extract : ℕ → ℕ) (changed : Bool) (table : Option Lut) (host : Host) (tag body : Bulk)
    (k : Commit) (s : Screen) (l : Link) (x y : ℕ)
    → CanShow k s l tag body
    → AreBytes k.bytes
    → IsByteTable (gamma_of extract changed table s)
    → x < s.width
    → y < s.height
    → let c = apply_color_mgmt extract changed table s in
      IsDelivered host tag body k
        (gamma_of extract changed table s)
        s
        l
        x
        y
        (draw k c, send_buffer (draw k c).shadow (draw k c) l)
unfolding apply_color_mgmt
colored-IsDelivered extract false table host tag body k s l x y h bytes ok hx hy =
    draw-IsDelivered host tag body k s l x y h bytes ok hx hy
colored-IsDelivered extract true none host tag body k s l x y h bytes ok hx hy =
    draw-IsDelivered host tag body k (record s { gamma_valid = false }) l x y h bytes ok hx hy
colored-IsDelivered extract true (some t) host tag body k s l x y h bytes ok hx hy =
    draw-IsDelivered host tag body k
      (record s { lut = λ channel v. extract (t channel v); gamma_valid = true }) l x y h bytes ok
      hx hy

flush-idle :
    (host : Host) (tag body : Bulk) (l : Link)
    → l.work ≡ false
    → flush_frame_transfer host tag body l ≡ l
unfolding flush_frame_transfer
flush-idle host tag body l idle =
    if-cases (λ m. m ≡ l) l.work (λ queued. absurd (ground (arith, queued, idle))) (λ free. refl)

-- A commit whose framebuffer has the current dimensions and holds bytes, under gamma tables of bytes, on a
-- panel whose frames are not too large, with no frame queued and a device that answers: the worker sends
-- the panel's buffer as the next packet (after a START tag if the session is fresh) and counts one
-- displayed frame; and each pixel of the framebuffer is in that buffer, at the column and line that the
-- rotation gives it, with the upper bits of its red, green and blue in the order of the panel, under the
-- table that the commit brings, or none if it takes the table away, or that of the commits before.
pub pipe_update-IsDelivered :
    (host : Host) (extract : ℕ → ℕ) (tag body tag' body' : Bulk) (k : Commit) (s : Screen)
    (l : Link) (x y : ℕ)
    → CanShow k s l tag' body'
    → AreBytes k.bytes
    → IsByteTable (commit_gamma extract k s)
    → x < s.width
    → y < s.height
    → IsDelivered host tag' body' k
        (commit_gamma extract k s)
        s
        l
        x
        y
        (pipe_update host extract tag body k s l)
unfolding pipe_update
pipe_update-IsDelivered host extract tag body tag' body' k s l x y h bytes table hx hy =
    let P = IsDelivered host tag' body' k (commit_gamma extract k s) s l x y in
    if-cases P (not k.has_fb || (not k.active || not k.entered))
      (λ out. absurd (ground (arith, out, h.has_fb, h.active, h.entered)))
      (λ on.
        if-cases P (not k.mapped) (λ out. absurd (ground (arith, out, h.mapped)))
          (λ mapped. rw (flush-idle host tag body l h.idle) (
            colored-IsDelivered extract k.color_mgmt_changed k.gamma_lut host tag' body' k s l x y h
              bytes table hx hy)))
