-- ===== src/Mpro/Tests/Kms.antt =====
-- The DRM child of the MPro driver on a small panel: copies, calls of the pipe and frames that are lost.
use packages.Base.{ℕ, ◌≡◌, ◌≢◌, refl, true, false, none, some, [], ◌∷◌, inr, arith}
use packages.Mpro.Rotation.Mode.{rotate_90}
use packages.Mpro.Pm.Work.{force_active}
use packages.Mpro.Drm.Copy.{Framebuffer, rgb565, Clip, Source, Target, fault, copy_frame}
use packages.Mpro.Drm.Safe.{IsWhole, copy_frame-ne-fault, copy_frame-overflow}
use packages.Mpro.Drm.Child.{Child, Screen, Kernel, Crtc}
use packages.Mpro.Drm.Kms.{
  pipe_enable, enable_fb, set_plane_rotation, set_blanked, take_active, color_step, enabled,
  enable_vblank, pipe_disable, pipe_update, update_plane, arm_pageflip,
}
use packages.Mpro.Drm.Held.{IsKept}
use packages.Mpro.Drm.Calls.{
  here, and_then, commits, enables, disables, starts_vblank, Steps-IsKept,
}
use packages.Mpro.Drm.Stale.{unchanged, then_update, force_active-stale}
use packages.Mpro.Tests.Data.{plenty, two_bytes, busy_pipe, device}
use packages.Mpro.Tests.Pm.{device-IsSound}

-- A picture of 2 by 3 pixels.
abbrev framebuffer : Framebuffer
framebuffer = record {
  format = rgb565;
  width = 2;
  height = 3;
  pitch = 4;
  mapped = true;
  bytes = 1 ∷ 2 ∷ 3 ∷ 4 ∷ 5 ∷ 6 ∷ 7 ∷ 8 ∷ 9 ∷ 10 ∷ 11 ∷ 12 ∷ [];
}

framebuffer-IsWhole : IsWhole framebuffer
framebuffer-IsWhole = record { line_fits = omega arith; lines_fit = omega arith }

abbrev source : Source
source = record { fb = framebuffer; lut = λ c i. i; transform = false; plain = λ p. p }

abbrev target : Target
target = record {
  width = 2;
  height = 3;
  effective = rotate_90;
  shadow = 0 ∷ 0 ∷ 0 ∷ 0 ∷ 0 ∷ 0 ∷ 0 ∷ 0 ∷ 0 ∷ 0 ∷ 0 ∷ 0 ∷ [];
}

abbrev all : Clip
all = record { x1 = 0; y1 = 0; x2 = 2; y2 = 3 }

copy_frame-ne-fault_example : copy_frame true source target all ≢ fault
copy_frame-ne-fault_example =
    copy_frame-ne-fault true source target all framebuffer-IsWhole (omega arith) (omega arith)
      (omega arith) (inr refl)

-- The same picture on a panel of 3 by 3 pixels.
abbrev wider : Target
wider = record target { width = 3 }

copy_frame-overflow_example : copy_frame true source wider all ≡ fault
copy_frame-overflow_example =
    copy_frame-overflow source wider all refl (ground arith) refl (ground arith) (omega arith)
      (omega arith) (omega arith) (omega arith) (omega arith)

abbrev child : Child
child = record {
  drm = record {
    width = 2;
    height = 3;
    shadow = target.shadow;
    shadow_size = 12;
    blanked = false;
    disable_partial = false;
  };
  color = record { lut = λ c i. i; lut_combined = λ c i. i; gamma_valid = false; brightness = 100 };
  native_rotation = 1;
  plane_rotation = 1;
  active_held = false;
  vblank_enabled = false;
  timer_active = false;
  vblank_was_enabled_pre_suspend = false;
  suspended = false;
  gamma_x100 = 100;
}

abbrev screen : Screen ℕ
screen = record { child = child; device = device; event = false; flips = []; vblank_refs = 0 }

abbrev kernel : Kernel
kernel = record {
  entered = true;
  now = 200;
  submit_ret = 0;
  memory = plenty;
  bounce_ok = true;
  temp_ok = true;
  black_ok = true;
  vblank_ok = true;
  lz4 = two_bytes;
  plain = λ p. p;
  lut_extract = λ v. v;
}

abbrev crtc : Crtc
crtc = record { color_mgmt_changed = false; gamma_lut = none }

screen-IsKept : IsKept 100 0 screen
screen-IsKept = record {
  loose = record { sound = device-IsSound; timer = refl; refs = refl; events = refl };
  exclusive = refl;
}

abbrev committed : Screen ℕ
committed = record screen { event = true }

abbrev lit : Screen ℕ
lit = enabled (color_step kernel crtc (set_blanked false (take_active kernel committed)))

lit_comes : pipe_enable kernel crtc none committed ≡ some lit
unfolding pipe_enable enable_fb set_plane_rotation
lit_comes = refl

-- A commit enables the pipe, the vblank starts, and the pipe is disabled.
Steps-IsKept_example : IsKept 100 1 (pipe_disable kernel (enable_vblank lit))
Steps-IsKept_example = Steps-IsKept screen-IsKept (
    and_then
      (and_then
        (and_then (and_then here (commits refl))
          (enables kernel crtc none (omega arith) refl lit_comes))
        starts_vblank)
      (disables kernel))

-- The device is idle, with a frame on the wire and one that waits; the pipe is updated.
abbrev idle_screen : Screen ℕ
idle_screen = record screen {
  device = record device { pipe = record busy_pipe { is_idle = true } };
}

abbrev drawn : Screen ℕ
drawn = arm_pageflip kernel (color_step kernel crtc idle_screen)

drawn_comes : pipe_update kernel crtc none [] idle_screen ≡ some drawn
unfolding pipe_update update_plane
drawn_comes = refl

force_active-stale_example :
    let q = (force_active 900 drawn.device).pipe in
    (q.is_idle ≡ false)
    × (q.in_flight ≡ true)
    × (q.current_xfer ≡ busy_pipe.current_xfer)
    × (q.pending_xfer ≡ busy_pipe.pending_xfer)
force_active-stale_example =
    force_active-stale {s = idle_screen} 900 refl
      (then_update kernel crtc none [] unchanged drawn_comes)
