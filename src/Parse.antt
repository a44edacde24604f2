-- ===== src/Parse.antt =====
-- parse.c
pub mod Strtoul
pub mod Ulong
pub mod Word
pub mod Mask
pub mod Addr
