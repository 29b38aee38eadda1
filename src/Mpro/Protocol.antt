-- ===== src/Mpro/Protocol.antt =====
-- kernel/mpro/src/mpro_protocol.c: the synchronous control messages of the probe.
pub mod Request
pub mod Firmware
pub mod Exchange
pub mod Version
