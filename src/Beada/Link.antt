-- ===== src/Beada/Link.antt =====
-- kernel/beadapanel/src/beada-pipeline.c, beada-pm.c and beada-usb.c: the parent device.
pub mod Device
pub mod Frames
pub mod Status
pub mod Power
pub mod Conversation
pub mod Oversize
pub mod Steps
