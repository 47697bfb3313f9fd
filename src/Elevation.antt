-- ===== src/Elevation.antt =====
-- crates/core/src/elevation.rs: nonces, challenges, the client registry and the nonce store.
-- Parameters: the random generator's answer, ed25519_dalek's keys and verification, and the
-- serialization of a challenge by serde_json.
pub mod Challenge
pub mod Store
pub mod Binding
pub mod Verdict
pub mod Replay
pub mod History
pub mod Encoding
mod Tests
