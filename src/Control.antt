-- ===== src/Control.antt =====
-- crates/broker/src/control_handler.rs and crates/transport/src/control.rs: the control channel.
pub mod Data
pub mod Observe
pub mod Commands
pub mod Grants
pub mod Presence
pub mod Handle
pub mod Channel
pub mod Authority
pub mod OnlySigned
pub mod Signatures
pub mod Presented
pub mod Confirmed
mod Tests
