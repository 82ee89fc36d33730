-- ===== src/Stream.antt =====
-- src/stream.c: the two streams of a chunk.
pub mod Out
pub mod In
pub mod Fields
pub mod Backend
pub mod Disk
pub mod Jobs
pub mod Turns
