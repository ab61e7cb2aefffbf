-- ===== src/Wire.antt =====
-- The wire formats of smg_primary_server: numbers, hexadecimal text, frames and TLV records.
pub mod Endian
pub mod Hex
pub mod Socket
pub mod Frame
pub mod Tlv
pub mod Tests
