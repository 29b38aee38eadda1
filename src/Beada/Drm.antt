-- ===== src/Beada/Drm.antt =====
-- kernel/beadapanel/src/drm: the DRM child of the BeadaPanel driver.
pub mod Blit
pub mod Coord
pub mod Colour
pub mod Picture
pub mod Pipe
pub mod Vblank
pub mod Shown
pub mod Delivered
pub mod Edid
pub mod Identity
