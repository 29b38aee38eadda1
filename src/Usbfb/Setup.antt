-- ===== src/Usbfb/Setup.antt =====
-- usbfb.c: what the probe acquires and the disconnect gives back.
use packages.Base.{◌≡◌, Bool, true, false, not, ◌&&◌, ◌==◌, if◌then◌else◌, arith}
use packages.Base.Errno.{Ret, enomem}

-- What is held: the two structures and the pixels, the registered framebuffer, the thread, the sysfs
-- files, the reboot notifier with `cur_uinfo`, the URB, its buffer and the input device. `crashed` says
-- that the probe wrote through a null pointer.
pub record Held : Type 0 where
  pub uinfo : Bool
  pub info : Bool
  pub vmem : Bool
  pub registered : Bool
  pub thread : Bool
  pub files : Bool
  pub notifier : Bool
  pub cur_uinfo : Bool
  pub irq : Bool
  pub touch_data : Bool
  pub input : Bool
  pub crashed : Bool

abbrev pub nothing : Held
nothing = record {
  uinfo = false;
  info = false;
  vmem = false;
  registered = false;
  thread = false;
  files = false;
  notifier = false;
  cur_uinfo = false;
  irq = false;
  touch_data = false;
  input = false;
  crashed = false;
}

-- What the kernel answers during the probe: the allocations, the registrations.
pub record Setup : Type 0 where
  pub uinfo_ok : Bool
  pub info_ok : Bool
  pub vmem_ok : Bool
  pub register_ret : Ret
  pub thread_ok : Bool
  pub irq_ok : Bool
  pub coherent_ok : Bool
  pub input_ok : Bool
  pub input_ret : Ret

-- The label `error_fb_release`.
unfoldable pub error_fb_release : Held → Held
error_fb_release h = record h { uinfo = false; info = false; vmem = false }

-- The label `error_free_urb`.
unfoldable pub error_free_urb : Held → Held
error_free_urb h = error_fb_release (record h { irq = false; touch_data = false })

-- `usbfb_probe` from the URB on; `ret` is the value that the variable has. The buffer is not tested,
-- nor is the input device: without one the code writes through the null pointer and goes no further.
unfoldable pub probe_touch : Setup → Ret → Held → Ret × Held
probe_touch a ret h =
    if not a.irq_ok
    then (ret, error_fb_release h)
    else let touched = record h { irq = true; touch_data = a.coherent_ok } in
      if not a.input_ok
      then (ret, record touched { crashed = true })
      else if not (a.input_ret == 0)
      then (a.input_ret, error_free_urb touched)
      else (0, record touched { input = true })

-- `usbfb_probe` from the registration of the framebuffer on.
unfoldable pub probe_framebuffer : Setup → Held → Ret × Held
probe_framebuffer a h =
    if not (a.register_ret == 0)
    then (a.register_ret, error_fb_release h)
    else let shown = record h { registered = true } in
      if not a.thread_ok
      then (a.register_ret, error_fb_release shown)
      else probe_touch a a.register_ret
          (record shown { thread = true; files = true; notifier = true; cur_uinfo = true })

-- `usbfb_probe`.
unfoldable pub probe : Setup → Ret × Held
probe a =
    if not a.uinfo_ok
    then (enomem, error_fb_release nothing)
    else let first = record nothing { uinfo = true } in
      if not a.info_ok
      then (enomem, error_fb_release first)
      else let second = record first { info = true } in
        if not a.vmem_ok
        then (enomem, error_fb_release second)
        else probe_framebuffer a (record second { vmem = true })

-- `usbfb_disconnect`.
unfoldable pub disconnect : Held → Held
disconnect h = record h {
  thread = false;
  input = false;
  irq = false;
  touch_data = false;
  registered = false;
  vmem = false;
  info = false;
  uinfo = false;
  files = false;
  notifier = false;
}

-- When the memory is there, the framebuffer is registered and the input device is allocated, the probe
-- reports success without the thread or without the URB, and else what the registration of the input
-- device returns; it holds its state exactly if it has both and that registration succeeds; and the
-- framebuffer is registered in each of these cases.
pub probe-success :
    (a : Setup)
    → (a.uinfo_ok && (a.info_ok && a.vmem_ok)) ≡ true
    → a.register_ret ≡ 0
    → a.input_ok ≡ true
    → ((probe a).0 ≡ (if a.thread_ok && a.irq_ok then a.input_ret else 0))
      × ((probe a).1.uinfo ≡ (a.thread_ok && (a.irq_ok && a.input_ret == 0)))
      × ((probe a).1.registered ≡ true)
unfolding probe probe_framebuffer probe_touch error_fb_release error_free_urb
probe-success a memory shown touch = ground arith

-- A complete probe and the disconnect leave nothing behind but the pointer `cur_uinfo`.
pub disconnect-probe :
    (a : Setup)
    → (probe a).0 ≡ 0
    → a.thread_ok ≡ true
    → a.irq_ok ≡ true
    → a.input_ok ≡ true
    → disconnect (probe a).1 ≡ record nothing { cur_uinfo = true }
unfolding probe probe_framebuffer probe_touch error_fb_release error_free_urb disconnect
disconnect-probe a h t u i = ground arith
