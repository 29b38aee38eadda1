-- ===== src/Ax206/Idle.antt =====
-- drm/ax206-drm-pm.c, the pipe callbacks of drm/ax206-drm-plane.c and the work of bl/ax206-bl-drv.c: the
-- virtual idle state and the backlight. The results of the transfers are ignored by the code.
use packages.Base.{
  ℕ, ◌∷◌, Bool, true, false, List, [], Option, none, some, not, ◌&&◌, ◌||◌, ◌==◌, ltb,
  if◌then◌else◌, ◌++◌,
}
use packages.Base.Errno.{Ret, enomem}
use packages.Ax206.Screen.{Picture, Display, logical_dims}
use packages.Ax206.Flush.{Blit, Outcome, stopped, skipped, sent, flush, blank_panel, blit_turn}

-- What is sent to the device: a backlight level, or a rectangle.
pub data Command : Type 0 where
  level : ℕ → Command
  area : Blit → Command

-- The fields of `struct ax206_drm_dev` and `struct ax206_dev` beside `Display`: the timer and the work
-- items that wait, those of the backlight with their levels, and the commands sent, the newest first.
pub record Panel : Type 0 where
  pub display : Display
  pub noblank : Bool
  pub cleared : Bool
  pub idle_timeout_s : ℕ
  pub timer_set : Bool
  pub idle_queued : Bool
  pub resume_queued : Bool
  pub blanked : Bool
  pub backlight : ℕ
  pub bl_works : List ℕ
  pub wire : List Command

-- `ax206_usb_set_backlight`, of a level that is not negative.
unfoldable pub set_backlight : ℕ → Panel → Panel
set_backlight value s = record s { wire = level (if ltb 7 value then 7 else value) ∷ s.wire }

-- The whole panel in one rectangle.
abbrev pub whole_panel : Picture → Display → Blit
whole_panel p d = record { x0 = 0; y0 = 0; x1 = d.width; y1 = d.height; picture = p }

-- `ax206_usb_fill_black`; `alloc_ok` is what the allocation answers.
unfoldable pub fill_black : Bool → Panel → Panel
fill_black alloc_ok s =
    if not alloc_ok then s else record s { wire = area (whole_panel (λ x y. 0) s.display) ∷ s.wire }

-- `ax206_idle_timer_reset`.
unfoldable pub idle_timer_reset : Panel → Panel
idle_timer_reset s =
    if s.display.idle_active
    then record s { resume_queued = true }
    else if s.idle_timeout_s == 0
    then s
    else record s { timer_set = true }

-- `ax206_idle_timer_fn`: the timer has run out.
unfoldable pub idle_timer_fn : Panel → Panel
idle_timer_fn s =
    let fired = record s { timer_set = false } in
    if not s.display.idle_active then record fired { idle_queued = true } else fired

-- `ax206_idle_enter`.
unfoldable pub idle_enter : Bool → Panel → Panel
idle_enter alloc_ok s =
    if s.display.idle_active
    then s
    else fill_black alloc_ok (
        set_backlight 0
          (record s { display = record s.display { idle_active = true }; blanked = true }))

-- The level that `ax206_idle_leave` restores: that of the backlight device, when it is found.
abbrev restored : Option ℕ → ℕ → ℕ
restored (some brightness) stored = brightness
restored none stored = stored

-- `ax206_idle_leave`; `bd` is the brightness of the backlight device, when there is one of the name.
unfoldable pub idle_leave : Option ℕ → Panel → Panel
idle_leave bd s =
    if not s.display.idle_active
    then s
    else let awake = record s {
      display = record s.display { idle_active = false };
      blanked = false;
    } in
      let shown = record awake { wire = area (whole_panel s.display.shadow s.display) ∷ s.wire } in
      idle_timer_reset (set_backlight (restored bd s.backlight) shown)

-- `ax206_idle_work_fn` and `ax206_resume_work_fn`.
unfoldable pub idle_work_fn : Bool → Panel → Panel
idle_work_fn alloc_ok s = idle_enter alloc_ok (record s { idle_queued = false })

unfoldable pub resume_work_fn : Option ℕ → Panel → Panel
resume_work_fn bd s = idle_leave bd (record s { resume_queued = false })

-- The first use wipes the panel.
unfoldable pub clear_once : Panel → Panel
clear_once s =
    if not s.cleared && s.display.connected
    then record s { cleared = true; display = blank_panel s.display }
    else s

-- `ax206_drm_pipe_enable`.
unfoldable pub pipe_enable : Option ℕ → Panel → Panel
pipe_enable bd s =
    idle_timer_reset (clear_once (if s.display.idle_active then idle_leave bd s else s))

-- `ax206_drm_pipe_disable`.
unfoldable pub pipe_disable : Panel → Panel
pipe_disable s =
    let still = record s { timer_set = false; idle_queued = false } in
    if s.noblank || not s.display.connected
    then still
    else record still { display = blank_panel s.display }

-- A rectangle of the framebuffer.
pub record Clip : Type 0 where
  pub x1 : ℕ
  pub y1 : ℕ
  pub x2 : ℕ
  pub y2 : ℕ

-- What a commit brings: is the pipe active, is there a framebuffer, its pixels when it is mapped, did
-- its size change, and the damaged rectangles.
pub record Commit : Type 0 where
  pub active : Bool
  pub has_fb : Bool
  pub source : Option Picture
  pub resized : Bool
  pub damages : List Clip

unfoldable pub flush_all : Picture → List Clip → Display → Display
flush_all p [] d = d
flush_all p (c ∷ cs) d = flush_all p cs (flush p c.x1 c.y1 c.x2 c.y2 d)

unfoldable pub draw_commit : Option Picture → Commit → Panel → Panel
draw_commit none c s = s
draw_commit (some p) c s =
    let dims = logical_dims s.display in
    record s {
      display =
          if c.resized
          then flush p 0 0 dims.0 dims.1 s.display
          else flush_all p c.damages s.display;
    }

-- `ax206_drm_pipe_update`.
unfoldable pub pipe_update : Commit → Panel → Panel
pipe_update c s =
    if not c.active || not c.has_fb then s else draw_commit c.source c (idle_timer_reset s)

-- A turn of the blit worker, with what it sends.
abbrev pub sent_area : Outcome → List Command → List Command
sent_area (sent b) cs = area b ∷ cs
sent_area stopped cs = cs
sent_area skipped cs = cs

unfoldable pub blit_work : Bool → Panel → Panel
blit_work alloc_ok s =
    let r = blit_turn alloc_ok s.display in record s { display = r.1; wire = sent_area r.0 s.wire }

-- `ax206_bl_update_status`.
unfoldable pub bl_update_status : Bool → ℕ → Panel → Ret × Panel
bl_update_status alloc_ok brightness s =
    let stored = record s { backlight = brightness } in
    if not s.display.connected
    then (0, stored)
    else if not alloc_ok
    then (enomem, stored)
    else (0, record stored { bl_works = s.bl_works ++ brightness ∷ [] })

-- `ax206_bl_work_fn`, the oldest work item that waits.
unfoldable pub send_unblanked : ℕ → Panel → Panel
send_unblanked value s = if s.display.connected && not s.blanked then set_backlight value s else s

unfoldable pub run_oldest : List ℕ → Panel → Panel
run_oldest [] s = s
run_oldest (value ∷ values) s = send_unblanked value (record s { bl_works = values })

unfoldable pub bl_work_fn : Panel → Panel
bl_work_fn s = run_oldest s.bl_works s
