-- ===== src/Mpro/Rotation.antt =====
-- kernel/mpro/src/drm/mpro_drm.h and mpro_drm_color.c: rotations, and the rotation of a buffer.
pub mod Mode
pub mod Buffer
pub mod Place
pub mod Loop
pub mod Compose
pub mod Picture
