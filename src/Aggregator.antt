-- ===== src/Aggregator.antt =====
-- crates/broker/src/aggregator.rs: the aggregator of the supervised children.
pub mod Data
pub mod Build
pub mod Lifecycle
pub mod Calls
pub mod Listing
pub mod Texts
pub mod Guarded
pub mod Started
pub mod Faults
pub mod Actions
pub mod Safety
pub mod Gate
pub mod Served
pub mod Confirmations
pub mod Routes
pub mod Elevations
pub mod Ids
mod Tests
