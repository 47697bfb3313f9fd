-- ===== src/Control/Data.antt =====
-- crates/transport/src/control.rs: requests and responses; crates/broker/src/control_handler.rs:
-- the state of the handler. The MCP handler shares its aggregator and its tape (Daemon). A notification
-- of a changed list is counted.
use mcp_lock.Prelude.{ℕ, suc, String, Bool, true, false, Option, none, some, List, []}
use mcp_lock.Prelude.Bytes.{Bytes}
use mcp_lock.Prelude.Decimal.{decimal}
use mcp_lock.Prelude.Ring.{push_capped}
use mcp_lock.Prelude.Sync.{Mutex, new_mutex, lock, store}
use mcp_lock.Prelude.Text.{◌+++◌}
use mcp_lock.Policy.Grant.{Timestamp}
use mcp_lock.Elevation.Challenge.{Nonce, Doc}
use mcp_lock.Elevation.Store.{ClientRegistry, NonceStore, new_store}
use mcp_lock.Audit.{AuditEvent, AuditLog, record_event}
use mcp_lock.Json.{JsonObjects}
use mcp_lock.Child.{McpChild}
use mcp_lock.Aggregator.Data.{Aggregator}

pub data ControlRequest : Type 0 where
  status list : ControlRequest
  logs : (limit : Option ℕ) → ControlRequest
  start stop pause resume : (id : String) → ControlRequest
  request_elevation : (client_id server_id mode : String) (ttl_secs : Option ℕ) → ControlRequest
  submit_elevation : (client_id nonce signature : String) → ControlRequest
  request_confirm : (client_id server_id tool : String) → ControlRequest
  submit_confirm : (client_id nonce signature : String) → ControlRequest
  revoke : (id : String) → ControlRequest

pub record ServerStatus : Type 0 where
  pub id : String
  pub state : String
  pub exposed_tools : ℕ
  pub elevated : Bool

pub data ControlResponse : Type 0 where
  status : (servers : List ServerStatus) → ControlResponse
  list : (tools : List String) → ControlResponse
  logs : (entries : List String) → ControlResponse
  nonce : (nonce : String) → ControlResponse
  done error : (message : String) → ControlResponse

abbrev pub internal_error : ControlResponse
internal_error = ControlResponse.error "internal error"

abbrev pub max_log_entries : ℕ
max_log_entries = 500

abbrev pub default_log_limit : ℕ
default_log_limit = 50

-- What the handler calls that stands outside the repository, and the children.
pub record Externals (Value Child Spawner Key File : Type 0) : Type 0 where
  pub children : McpChild Value Child Spawner
  pub objects : JsonObjects Value
  pub name_of : Value → Option String
  pub verify_strict : Key → Bytes → Bytes → Bool
  pub to_vec : Doc → Bytes
  pub append : File → String → File
  pub to_string : ℕ → AuditEvent → Option String

-- What one request reads: the clock at its start and when it logs, the wall clock of the tape, and
-- the random generator.
pub record Inputs : Type 0 where
  pub now : Timestamp
  pub logged_at : Timestamp
  pub wall : ℕ
  pub drawn : Option Nonce

pub record Handler (Value Child Spawner Key File : Type 0) : Type 0 where
  pub aggregator : Mutex (Aggregator Value Child Spawner)
  pub notified : ℕ
  pub nonces : Mutex NonceStore
  pub registry : ClientRegistry Key
  pub audit : AuditLog File
  pub log : Mutex (List String)

abbrev log_line : Timestamp → String → String
log_line now message = "[t+" +++ (decimal now +++ ("s] " +++ message))

abbrev logged : String → Mutex (List String) → Option (List String) → Mutex (List String)
logged line m none = m
logged line m (some lines) = store m (push_capped max_log_entries lines line)

module _ {Value Child Spawner Key File : Type 0} where
  -- The method `record`, whose name is a keyword.
  unfoldable pub record_line :
      Handler Value Child Spawner Key File
      → Timestamp
      → String
      → Handler Value Child Spawner Key File
  record_line h now message = record h { log = logged (log_line now message) h.log (lock h.log) }

  abbrev pub notify_tools_list_changed :
      Bool → Handler Value Child Spawner Key File → Handler Value Child Spawner Key File
  notify_tools_list_changed true h = record h { notified = suc h.notified }
  notify_tools_list_changed false h = h

  abbrev pub set_aggregator :
      Handler Value Child Spawner Key File
      → Aggregator Value Child Spawner
      → Handler Value Child Spawner Key File
  set_aggregator h a = record h { aggregator = store h.aggregator a }

  abbrev pub audited :
      Externals Value Child Spawner Key File
      → Inputs
      → AuditEvent
      → Handler Value Child Spawner Key File
      → Handler Value Child Spawner Key File
  audited ext inputs event h = record h {
    audit = record_event ext.append ext.to_string h.audit inputs.wall event;
  }

  -- `BrokerControlHandler::new`.
  abbrev pub new_handler :
      Mutex (Aggregator Value Child Spawner)
      → ClientRegistry Key
      → AuditLog File
      → Timestamp
      → Handler Value Child Spawner Key File
  new_handler aggregator registry audit now =
      record_line
        (record {
          aggregator = aggregator;
          notified = 0;
          nonces = new_mutex new_store;
          registry = registry;
          audit = audit;
          log = new_mutex [];
        })
        now "broker control channel ready"
