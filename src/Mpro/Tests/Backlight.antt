-- ===== src/Mpro/Tests/Backlight.antt =====
-- backlight/mpro_backlight.c on concrete calls.
use packages.Base.Int.{pos}
use packages.Mpro.Backlight.Child.{MproBacklight, update, bl_screen_off, gamma_store, probe}

-- A parameter that is too large, then the screen off, a change of brightness, a gamma of 2.20, and the
-- screen on.
abbrev lamp : MproBacklight
lamp = probe 0 (pos 300) (pos 100)

abbrev dark : MproBacklight
dark = (update 0 (pos 40) (bl_screen_off 0 lamp)).1

abbrev curved : MproBacklight
curved = (gamma_store 0 0 220 dark).1
