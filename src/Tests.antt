-- ===== src/Tests.antt =====
-- Runs of the definitions on concrete inputs, and uses of the theorems at them.
mod Packets
mod Times
mod Sections
mod Streams
mod Elementary
mod Tables
mod Fields
mod Descriptors
mod Refused
