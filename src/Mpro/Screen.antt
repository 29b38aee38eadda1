-- ===== src/Mpro/Screen.antt =====
-- kernel/mpro/src/mpro_screen.c: callbacks that follow the screen's state.
pub mod Listeners
pub mod Order
