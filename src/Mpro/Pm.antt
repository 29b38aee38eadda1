-- ===== src/Mpro/Pm.antt =====
-- kernel/mpro/src/mpro_pm.c: the virtual idle state.
pub mod Device
pub mod Work
pub mod Refs
pub mod Blank
pub mod Trace
