-- ===== src/Tests.antt =====
-- Runs of the theorems at concrete inputs, for src/rzip.c, src/stream.c and src/runzip.c.
pub mod Base
pub mod Write
pub mod Read
pub mod Header
pub mod Sliding
pub mod Fields
pub mod Backend
pub mod Disk
pub mod Jobs
pub mod Sizes
pub mod Turns
pub mod Files
pub mod Crypt
