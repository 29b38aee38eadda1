-- ===== src/Mpro/Tests.antt =====
-- Examples: each theorem with hypotheses, applied where they hold.
mod Data
mod Pipeline
mod Pm
mod Rotation
mod Touch
mod Drm
mod Protocol
mod Backlight
mod Kms
mod Sysfs
