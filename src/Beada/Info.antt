-- ===== src/Beada/Info.antt =====
-- kernel/beadapanel/src/beada-pipeline.c: what the probe learns about the panel.
pub mod Query
pub mod Usable
