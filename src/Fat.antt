-- ===== src/Fat.antt =====
-- kernel/src/fs/fat.rs: `Fat`, the file allocation table in memory, and `FatEntry`.
-- A byte is a number below 256; `x & 0x0F` is `x % 16`, `x & 0xF0` is `x - x % 16`, a shift is a
-- multiplication or division by a power of two, and `|` of numbers without a common bit is their sum.
pub mod Entry
pub mod Table
pub mod Roundtrip
pub mod Chain
pub mod FindFree
mod Examples
