-- ===== src/Net.antt =====
-- The network stack, ayumos/kernel/net.
pub mod Packet
pub mod Checksum
pub mod Address
pub mod Arp
pub mod Route
pub mod Ports
