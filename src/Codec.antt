-- ===== src/Codec.antt =====
-- The routines of Rust's standard library that the wire formats are written with: big-endian
-- words, `str::split`, integer parsing and printing, hexadecimal and UTF-8 validation.
pub mod Endian
pub mod Fields
pub mod Decimal
pub mod Hex
pub mod Utf8
pub mod Trim
