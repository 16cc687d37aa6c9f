-- ===== src/Net.antt =====
-- The wire: numbers as bytes, and the buffer that packets are written to.
pub mod VarNum
pub mod Words
pub mod Buffer
pub mod Write
pub mod Packets
pub mod Positions
