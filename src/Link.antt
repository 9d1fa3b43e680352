-- ===== src/Link.antt =====
-- src/link.rs: the batched send path of a link, and what is counted about a link.
pub mod Gso
pub mod Windows
pub mod Ewma
pub mod Stats
mod Tests
