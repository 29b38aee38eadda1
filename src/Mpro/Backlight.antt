-- ===== src/Mpro/Backlight.antt =====
-- backlight/mpro_backlight.c: the backlight child.
pub mod Child
pub mod Told
pub mod Parse
