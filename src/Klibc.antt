-- ===== src/Klibc.antt =====
-- The kernel's C library: ayumos/klibc.
pub mod Bytes
pub mod Text
pub mod Ctype
pub mod Errors
pub mod Numbers
pub mod Random
pub mod Addresses
pub mod Substring
