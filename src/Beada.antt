-- ===== src/Beada.antt =====
-- kernel/beadapanel/src: the BeadaPanel driver. Its messages, its table of models, the parent's
-- transfers and power management, and the DRM child's picture.
pub mod Checksum
pub mod Verify
pub mod Model
pub mod Lookup
pub mod Link
pub mod Info
pub mod Drm
pub mod Backlight
mod Tests
