-- ===== src/Beada/Backlight.antt =====
-- kernel/beadapanel/src/bl: the backlight child of the BeadaPanel driver.
pub mod Child
pub mod Curve
pub mod Resumed
