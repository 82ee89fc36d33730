-- ===== src/Util.antt =====
-- src/util.c: sizes and limits.
pub mod Page
pub mod Ram
pub mod Overhead
pub mod Crypt
