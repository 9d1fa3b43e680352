-- ===== src/Protocol.antt =====
-- src/protocol.rs: the plaintext frames that a link's WireGuard tunnel encrypts as a whole.
pub mod Header
pub mod Payloads
pub mod FecParity
mod Tests
