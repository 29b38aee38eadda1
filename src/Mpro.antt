-- ===== src/Mpro.antt =====
-- kernel/mpro/src: the MPro USB display driver, one module for each part.
pub mod Model
pub mod Protocol
pub mod Pipeline
pub mod Screen
pub mod Pm
pub mod Rotation
pub mod Touch
pub mod Sysfs
pub mod Probe
pub mod Drm
mod Tests
pub mod Backlight
