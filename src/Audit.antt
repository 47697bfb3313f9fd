-- ===== src/Audit.antt =====
-- crates/core/src/audit.rs: the append-only tape of security events.
-- The serializer of an entry, the clock and the writes to the file are parameters: `to_string` gives
-- the line of an event at a time, and `append` is a file once a line was written to it, if it could.
pub mod Tape
mod Tests
use mcp_lock.Prelude.{ℕ, ◌-◌, min, String, Option, none, some, List, [], drop, length}
use mcp_lock.Prelude.Sync.{Mutex, new_mutex, lock, store}
use mcp_lock.Prelude.Ring.{push_capped}
use mcp_lock.Prelude.Text.{◌+++◌}

abbrev pub recent_cap : ℕ
recent_cap = 500

pub data AuditEvent : Type 0 where
  elevation_granted : (server_id client_id mode : String) → AuditEvent
  elevation_revoked : (server_id reason : String) → AuditEvent
  confirm_approved write_tool_invoked confirm_rejected : (server_id tool : String) → AuditEvent
  elevation_denied : (server_id client_id reason : String) → AuditEvent

pub record AuditLog (File : Type 0) : Type 0 where
  pub file : Option (Mutex File)
  pub recent_lines : Mutex (List String)

abbrev or_serialize_error : Option String → String
or_serialize_error none = "{\"ts\":0,\"event\":\"serialize_error\"}"
or_serialize_error (some line) = line

-- The time is that of the wall clock.
abbrev pub serialize_line : (ℕ → AuditEvent → Option String) → ℕ → AuditEvent → String
serialize_line to_string unix_now event = or_serialize_error (to_string unix_now event)

abbrev push_locked : String → Mutex (List String) → Option (List String) → Mutex (List String)
push_locked line m none = m
push_locked line m (some lines) = store m (push_capped recent_cap lines line)

abbrev skip_to : ℕ → Option (List String) → List String
skip_to limit none = []
skip_to limit (some lines) = drop (length lines - min limit (length lines)) lines

module _ {File : Type 0} where
  abbrev pub in_memory : AuditLog File
  in_memory = record { file = none; recent_lines = new_mutex [] }

  abbrev pub to_file : File → AuditLog File
  to_file f = record { file = some (new_mutex f); recent_lines = new_mutex [] }

  abbrev write_locked : (File → String → File) → String → Mutex File → Option File → Mutex File
  write_locked append line m none = m
  write_locked append line m (some f) = store m (append f line)

  abbrev write_line : (File → String → File) → String → Option (Mutex File) → Option (Mutex File)
  write_line append line none = none
  write_line append line (some m) = some (write_locked append line m (lock m))

  -- `record` is a keyword.
  unfoldable pub record_event :
      (File → String → File)
      → (ℕ → AuditEvent → Option String)
      → AuditLog File
      → ℕ
      → AuditEvent
      → AuditLog File
  record_event append to_string log unix_now event =
      let line = serialize_line to_string unix_now event in
      record {
        file = write_line append line log.file;
        recent_lines = push_locked line log.recent_lines (lock log.recent_lines);
      }

  unfoldable pub recent : AuditLog File → ℕ → List String
  recent log limit = skip_to limit (lock log.recent_lines)
