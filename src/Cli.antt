-- ===== src/Cli.antt =====
-- crates/cli/src/main.rs: the command line: its arguments (Args), what it prints (Output), and its
-- commands (Session), which speak to the broker. Callable leads from a command to the calls of an MCP
-- client.
pub mod Args
pub mod Output
pub mod Session
pub mod Signed
pub mod Elevates
pub mod Callable
pub mod Confirms
mod Tests
mod ConfirmTests
