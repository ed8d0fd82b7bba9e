-- ===== src/Net.antt =====
-- src/net/: the flow key, the packet headers, the extraction of a flow and the encapsulation.
pub mod Key
pub mod Headers
pub mod Checksum
pub mod Flow
pub mod Encap
pub mod Arp
pub mod Tests
