-- ===== src/Beada/Tests/Backlight.antt =====
-- Examples of the backlight child: each theorem with hypotheses, applied where they hold.
use packages.Base.{◌≤◌, ◌≡◌, true, arith}
use packages.Base.Int.{pos}
use packages.Beada.Link.Device.{Link}
use packages.Beada.Link.Power.{usb_resume}
use packages.Beada.Backlight.Child.{BeadaBacklight, Child, bl_level, bl_update_status, gamma_store}
use packages.Beada.Backlight.Curve.{bl_level_mono}
use packages.Beada.Tests.Link.{host, fresh, done, noon}

abbrev backlight : BeadaBacklight
backlight = record { max_value = 100; gamma_x100 = 220; stored_value = 50 }

bl_level_mono_example :
    (bl_level backlight 30 ≤ bl_level backlight 70)
    × (bl_level backlight 70 ≤ 100)
    × (bl_level backlight 0 ≡ 0)
    × (bl_level backlight 100 ≡ 100)
bl_level_mono_example = bl_level_mono backlight 30 70 (omega arith) (omega arith) (omega arith)

-- While the device is suspended, the brightness is set to 20 and the gamma to 3.00, then to 80 and 1.50.
abbrev asleep : Child
asleep = (backlight, record fresh { suspended = true })

abbrev once : Child
once = (gamma_store host 0 (done 0) (0, 300) (bl_update_status host 0 (done 0) (pos 20) asleep).1).1

abbrev told : Child
told = (gamma_store host 0 (done 0) (0, 150) (bl_update_status host 0 (done 0) (pos 80) once).1).1

abbrev resumed : Link
resumed = usb_resume host noon (done 20) (done 36) told.1
