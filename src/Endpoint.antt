-- ===== src/Endpoint.antt =====
-- crates/transport/src/endpoint.rs: the HTTP endpoint of the MCP client.
pub mod Notifier
pub mod Stream
pub mod Requests
pub mod Gate
mod Tests
