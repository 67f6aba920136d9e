-- ===== src/Pes.antt =====
-- src/pes.rs: packetised elementary streams.
pub mod Timestamp
pub mod Header
pub mod Filter
pub mod StreamId
pub mod Extension
pub mod Contents
