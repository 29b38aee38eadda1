-- ===== src/Beada/Backlight/Resumed.antt =====
-- bl/beada-backlight-bl.c, bl/beada-backlight-pm.c and beada-pm.c together: the brightness that is set
-- while the device is suspended.
use packages.Base.{ℕ, ◌≡◌, true, false}
use packages.Base.Int.{ℤ}
use packages.Base.Errno.{Ret}
use packages.Beada.Link.Device.{Link, Host, Bulk}
use packages.Beada.Backlight.Child.{Child, bl_update_status, gamma_store}

-- The calls of user space.
pub data Calls (host : Host) (s : Child) : Child → Type 0 where
  no_call : Calls host s s
  then_brightness :
      {t : Child} (pm : Ret) (out : Bulk) (requested : ℤ)
      → Calls host s t
      → Calls host s (bl_update_status host pm out requested t).1
  then_gamma :
      {t : Child} (pm : Ret) (out : Bulk) (parsed : Ret × ℕ)
      → Calls host s t
      → Calls host s (gamma_store host pm out parsed t).1

-- A device that answers.
pub record IsAwake (l : Link) : Type 0 where
  pub statuslink : l.has_statuslink ≡ true
  pub connected : l.disconnected ≡ false
  pub awake : l.suspended ≡ false
