-- ===== src/Mpro/Drm.antt =====
-- kernel/mpro/src/drm and mpro_color.c: frames on their way to the pipeline.
pub mod Copy
pub mod Safe
pub mod Child
pub mod Kms
pub mod Power
pub mod Keeps
pub mod Held
pub mod Callbacks
pub mod Calls
pub mod Stale
pub mod Update
pub mod Damage
pub mod Gamma
pub mod Curve
pub mod Pixel
pub mod Shade
pub mod Edid
pub mod Identity
