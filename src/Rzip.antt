-- ===== src/Rzip.antt =====
-- src/rzip.c: the long-distance matcher.
pub mod State
pub mod Slice
pub mod Put
pub mod Match
pub mod Tag
pub mod Hash
pub mod Search
pub mod Files
pub mod Sliding
