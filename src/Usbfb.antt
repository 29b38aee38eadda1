-- ===== src/Usbfb.antt =====
-- kernel/usbfb/src/usbfb.c: a framebuffer driver for the VoCore screens.
pub mod Geometry
pub mod Screen
pub mod Query
pub mod Order
pub mod Backlight
pub mod Repeat
pub mod Setup
mod Tests
