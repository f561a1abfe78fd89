-- ===== src/Udp.antt =====
-- The package udp: the stabilizer that makes a datagram connection reliable.
pub mod Stabilizer
mod Tests
