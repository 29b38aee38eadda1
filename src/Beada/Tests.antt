-- ===== src/Beada/Tests.antt =====
-- Examples of the BeadaPanel driver: each theorem with hypotheses, applied where they hold.
mod Messages
mod Link
mod Info
mod Drm
mod Backlight
