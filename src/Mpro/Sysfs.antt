-- ===== src/Mpro/Sysfs.antt =====
-- kernel/mpro/src/mpro_sysfs.c and the LZ4 helpers of mpro_main.c: what can be changed and read while the
-- device is in use.
pub mod Stores
pub mod Shows
pub mod Ready
pub mod Stats
