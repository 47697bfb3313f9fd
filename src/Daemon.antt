-- ===== src/Daemon.antt =====
-- crates/broker/src/main.rs: the start of the broker.
-- The environment, the files and the two listeners are parameters (`System`): a variable is a text,
-- where it is set, and a file is read, opened or bound, or the text of the error is given.
pub mod Args
pub mod Asked
pub mod Clients
pub mod Closed
pub mod Requests
pub mod Revoked
mod RevokedTests
pub mod Starts
mod Tests
use mcp_lock.Prelude.{ℕ, String, Option, none, some, List, [], ◌∷◌, ◌++◌, map, length}
use mcp_lock.Prelude.BTreeMap.{BTreeMap}
use mcp_lock.Prelude.Bytes.{Bytes}
use mcp_lock.Prelude.Decimal.{decimal}
use mcp_lock.Prelude.Hex.{from_hex}
use mcp_lock.Prelude.Results.{Result, ok, err, ok_or, map_err, ◌>>=◌}
use mcp_lock.Prelude.Sync.{Mutex, new_mutex}
use mcp_lock.Prelude.Text.{◌+++◌, join}
use mcp_lock.Manifest.{Manifest, LoadedManifest, ManifestError, io, load_from_bytes}
use mcp_lock.Policy.Grant.{Timestamp}
use mcp_lock.Broker.{ServerSlot, exposed, from_manifest, elevation_count}
use mcp_lock.Elevation.Challenge.{ElevationError}
use mcp_lock.Elevation.Store.{ClientRegistry, NonceStore, new_registry, register}
use mcp_lock.Auth.{StaticBearerValidator, new}
use mcp_lock.Audit.{AuditLog, in_memory, to_file}
use mcp_lock.Child.{McpChild}
use mcp_lock.Aggregator.Data.{AggregatorError, Aggregator}
use mcp_lock.Aggregator.Build.{build}
use mcp_lock.Control.Data.{Handler, new_handler}

abbrev pub token_env : String
token_env = "MCPLOCK_BEARER_TOKEN"

abbrev pub listen_env : String
listen_env = "MCPLOCK_LISTEN"

abbrev pub default_listen : String
default_listen = "127.0.0.1:8765"

abbrev pub clients_env : String
clients_env = "MCPLOCK_CLIENTS"

abbrev pub audit_env : String
audit_env = "MCPLOCK_AUDIT_LOG"

abbrev pub public_key_len : ℕ
public_key_len = 32

-- What the start reads and opens, and the libraries that it calls.
pub record System (Value Child Spawner Key File : Type 0) : Type 0 where
  pub var : String → Option String
  pub read_file : String → Result Bytes String
  pub open_log : String → Result File String
  pub bind : String → Result (Unit {0}) String
  pub bind_control : Result (Unit {0}) String
  pub digest : Bytes → Bytes
  pub parse_manifest : Bytes → Result Manifest String
  pub parse_clients : Bytes → Result (BTreeMap String) String
  pub from_bytes : Bytes → Option Key
  pub children : McpChild Value Child Spawner

-- Why the daemon does not serve. The exit code is 1 in each case.
pub data Refusal : Type 0 where
  no_manifest : ManifestError → Refusal
  no_token : Refusal
  no_servers : AggregatorError → Refusal
  no_endpoint : (listen message : String) → Refusal

-- What the control handler keeps beside the aggregator and the tape.
pub record ControlOwn (Key : Type 0) : Type 0 where
  pub notified : ℕ
  pub nonces : Mutex NonceStore
  pub registry : ClientRegistry Key
  pub log : Mutex (List String)

-- What runs once the daemon serves. There is one aggregator and one tape, which the two handlers
-- share: each of them is the shared cells, with what it keeps for itself. There is no control handler
-- where the control socket could not be bound.
pub record Served (Value Child Spawner Key File : Type 0) : Type 0 where
  pub validator : StaticBearerValidator
  pub aggregator : Mutex (Aggregator Value Child Spawner)
  pub audit : AuditLog File
  pub control : Option (ControlOwn Key)

abbrev pub own_of :
    {Value Child Spawner Key File : Type 0} → Handler Value Child Spawner Key File → ControlOwn Key
own_of h = record { notified = h.notified; nonces = h.nonces; registry = h.registry; log = h.log }

unfoldable pub decode_pubkey : String → Option Bytes
decode_pubkey hex = from_hex public_key_len hex

abbrev pub token_of : Option String → String
token_of none = ""
token_of (some token) = token

abbrev pub listen_of : Option String → String
listen_of none = default_listen
listen_of (some listen) = listen

abbrev exposure_line : ServerSlot → String
exposure_line s = "  [" +++ (s.id +++ ("] read-only exposure: " +++ join ", " (exposed s 0)))

module _ {Value Child Spawner Key File : Type 0} (sys : System Value Child Spawner Key File) where
  -- A value, and the warnings that were printed.
  abbrev Warned : Type 0
  Warned = ClientRegistry Key × List String

  abbrev pub registered :
      ClientRegistry Key → String → Result (ClientRegistry Key) ElevationError → Warned
  registered registry id (ok r) = (r, [])
  registered registry id (err e) =
      (registry, ("mcp-lockd: client '" +++ (id +++ "' has an invalid public key; skipped")) ∷ [])

  abbrev pub register_decoded : ClientRegistry Key → String → Option Bytes → Warned
  register_decoded registry id none = (
    registry,
    ("mcp-lockd: client '" +++ (id +++ "' public key is not 32-byte hex; skipped")) ∷ [],
  )
  register_decoded registry id (some key) =
      registered registry id (register sys.from_bytes registry id key)

  -- The loop over the entries of the file.
  unfoldable pub register_clients : ClientRegistry Key → BTreeMap String → Warned
  unfolding decode_pubkey
  register_clients registry [] = (registry, [])
  register_clients registry ((id, hex) ∷ rest) =
      let (next, warning) = register_decoded registry id (decode_pubkey hex) in
      let (last, warnings) = register_clients next rest in (last, warning ++ warnings)

  abbrev pub register_parsed : Result (BTreeMap String) String → Warned
  register_parsed (ok m) = register_clients new_registry m
  register_parsed (err e) =
      (new_registry, ("mcp-lockd: " +++ (clients_env +++ (" is not valid JSON: " +++ e))) ∷ [])

  abbrev pub register_read : String → Result Bytes String → Warned
  register_read path (ok bytes) = register_parsed (sys.parse_clients bytes)
  register_read path (err e) = (
    new_registry,
    ("mcp-lockd: cannot read " +++ (clients_env +++ (" (" +++ (path +++ ("): " +++ e))))) ∷ [],
  )

  abbrev pub register_from : Option String → Warned
  register_from none = (new_registry, [])
  register_from (some path) = register_read path (sys.read_file path)

  unfoldable pub load_registry : Warned
  unfolding register_clients
  load_registry = register_from (sys.var clients_env)

  abbrev pub opened : Result File String → AuditLog File
  opened (ok f) = to_file f
  opened (err e) = in_memory

  abbrev pub audit_from : Option String → AuditLog File
  audit_from none = in_memory
  audit_from (some path) = opened (sys.open_log path)

  unfoldable pub load_audit : AuditLog File
  load_audit = audit_from (sys.var audit_env)

  unfoldable pub load_from_path : String → Result LoadedManifest ManifestError
  load_from_path path = do
    bytes ← map_err io (sys.read_file path)
    load_from_bytes sys.digest sys.parse_manifest bytes

  abbrev pub control_of :
      Mutex (Aggregator Value Child Spawner)
      → ClientRegistry Key
      → AuditLog File
      → Timestamp
      → Result (Unit {0}) String
      → Option (ControlOwn Key)
  control_of aggregator registry audit now (ok u) =
      some (own_of (new_handler aggregator registry audit now))
  control_of aggregator registry audit now (err e) = none

  unfoldable pub start_control_channel :
      Mutex (Aggregator Value Child Spawner)
      → ClientRegistry Key
      → AuditLog File
      → Timestamp
      → Option (ControlOwn Key)
  start_control_channel aggregator registry audit now =
      control_of aggregator registry audit now sys.bind_control

  -- Up to the point where the endpoint runs. `now` is what the clock says when the control handler
  -- is made.
  unfoldable pub serve :
      String → Spawner → Timestamp → Result (Served Value Child Spawner Key File) Refusal
  unfolding load_from_path load_registry load_audit start_control_channel
  serve path spawner now = do
    loaded ← map_err no_manifest (load_from_path path)
    validator ← ok_or (new (token_of (sys.var token_env)) "mcp-client") no_token
    aggregator ← map_err no_servers (build sys.children loaded spawner)
    let shared = new_mutex aggregator
    let audit = load_audit
    let listen = listen_of (sys.var listen_env)
    u ← map_err (no_endpoint listen) (sys.bind listen)
    ok (record {
      validator = validator;
      aggregator = shared;
      audit = audit;
      control = start_control_channel shared load_registry.0 audit now;
    })

  -- The lines that are printed, or the error, with which the exit code is 1.
  unfoldable pub check_manifest : String → Result (List String) ManifestError
  unfolding load_from_path
  check_manifest path = do
    loaded ← load_from_path path
    let state = from_manifest loaded
    ok (
        ("manifest: " +++ path)
        ∷ ("integrity (sha256): " +++ loaded.integrity_sha256)
        ∷ ("cold start: "
            +++ (decimal (length state.servers)
                +++ (" server(s), " +++ (decimal (elevation_count state) +++ " elevation(s)"))))
        ∷ map exposure_line state.servers)
