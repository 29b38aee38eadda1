-- ===== src/Mpro/Pipeline.antt =====
-- kernel/mpro/src/mpro_pipeline.c: the asynchronous frame pipeline.
pub mod Xfer
pub mod Alloc
pub mod Submit
pub mod Send
pub mod Complete
pub mod Frame
pub mod System
pub mod Token
pub mod Sections
pub mod SingleFlight
pub mod Stopped
pub mod Ownership
pub mod Leaks
pub mod Latest
pub mod Wire
pub mod Ready
pub mod FramePeriod
