-- ===== src/Mpro/Touch.antt =====
-- kernel/mpro/src/mpro_touch.c and touchscreen: the touch input.
pub mod Coord
pub mod Packet
pub mod Urb
pub mod Listeners
pub mod Input
pub mod Screen
pub mod Reports
pub mod Gate
