-- ===== src/Tunnel.antt =====
-- src/tunnel.rs: what decides when FEC parity is sent and in what order received frames are delivered.
pub mod Gate
pub mod Reorder
mod Tests
