-- ===== src/Demultiplex.antt =====
-- src/demultiplex.rs: the demultiplexer and the filters for the tables that drive it.
pub mod Filters
pub mod Context
pub mod Push
pub mod Tables
pub mod TableFilters
