-- ===== src/Client.antt =====
-- crates/broker/src/mcp_client.rs: the client of one child: the lines of its output (Lines), a request
-- and its answer (Requests), what a child is asked (Operations), what an answer is (Answers), the end of the child (Reap), and the client as a
-- child of the aggregator (Supervised).
pub mod Lines
pub mod Framing
pub mod Requests
pub mod Operations
pub mod Answers
pub mod Deadline
pub mod Timely
pub mod Reap
pub mod Supervised
pub mod Hung
mod Tests
mod HungTests
