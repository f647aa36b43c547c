-- ===== src/Util.antt =====
-- Kernel utilities: ayumos/kernel/util.
pub mod Numeric
pub mod Checksum
pub mod Circbuf
pub mod Ktime
pub mod Hash
pub mod Messages
