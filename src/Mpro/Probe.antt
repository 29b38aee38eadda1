-- ===== src/Mpro/Probe.antt =====
-- kernel/mpro/src/mpro_main.c: the probe of the parent, what it acquires, and the disconnect.
pub mod Devres
pub mod Released
