-- ===== src/Protocol/Payloads.antt =====
-- src/protocol.rs: the payloads of fixed size. An `f32` is its 32-bit pattern, which the code moves
-- and never computes with; a fixed array is a list of its length.
pub mod Probe
pub mod Stats
pub mod VersionInfo
pub mod Throughput
pub mod Names
