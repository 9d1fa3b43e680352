-- ===== src/Fec.antt =====
-- src/fec.rs: forward error correction over groups of data frames.
pub mod Gf
pub mod Sums
pub mod Sender
pub mod Recovery
pub mod RoundTrip
pub mod Overhead
pub mod Placement
mod Tests
