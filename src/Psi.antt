-- ===== src/Psi.antt =====
-- src/psi/mod.rs: sections of program specific information, from packets to whole sections.
pub mod Section
pub mod Syntax
pub mod Framer
pub mod CrcCheck
pub mod Dedup
pub mod Pat
pub mod Pmt
