-- ===== src/Packet.antt =====
-- src/packet.rs: a transport stream packet and the fields of its header.
pub mod Fields
pub mod ClockRef
pub mod Header
pub mod Payload
pub mod Counters
pub mod AdaptationField
