-- ===== src/Ax206.antt =====
-- kernel/ax206/src: the driver of the AX206 picture frames.
pub mod Screen
pub mod Flush
pub mod Coherent
pub mod Worker
pub mod Turned
pub mod Stats
pub mod Usb
pub mod Idle
pub mod Dark
pub mod Loop
pub mod Drained
mod Tests
