-- ===== src/Fec/Recovery.antt =====
-- src/fec.rs, `FecRecoveryBuffer`: what the receiver remembers of the stream, and the recovery of lost
-- frames. `Instant::now()` is an argument `now` of each operation, in the unit of the two lifetimes.
pub mod State
pub mod Evaluate
pub mod Buffer
