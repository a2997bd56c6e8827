-- ===== src/Common.antt =====
-- src/common.c: strings and memory.
pub mod Strings
pub mod Memory
pub mod Words
