-- ===== src/Mail.antt =====
-- crates/mail: the mail server. What it reads (Store), the store that is kept in memory (Fake), the
-- tools (Tools), the JSON-RPC loop (Server), its settings (Config) and the IMAP backend (Imap).
pub mod Store
pub mod Fake
pub mod Arguments
pub mod Tools
pub mod Server
pub mod Config
pub mod Imap
pub mod Inbox
pub mod Reads
pub mod Replies
pub mod Settings
pub mod Quoting
mod Tests
