-- ===== src/Control/Observe.antt =====
-- crates/broker/src/control_handler.rs: `status`, `list` and `logs`, which change nothing.
use mcp_lock.Prelude.{ℕ, String, Option, none, some, List, [], ◌∷◌, map, reverse, take, length}
use mcp_lock.Prelude.BTreeMap.{is_some}
use mcp_lock.Prelude.Sync.{lock}
use mcp_lock.Policy.{ServerState, running, paused, stopped}
use mcp_lock.Policy.Grant.{Timestamp}
use mcp_lock.Broker.{ServerSlot, exposed}
use mcp_lock.Aggregator.Data.{Aggregator}
use mcp_lock.Aggregator.Listing.{aggregated_tools}
use mcp_lock.Control.Data.{
  ServerStatus, ControlResponse, internal_error, default_log_limit, Externals, Inputs, Handler,
}

abbrev pub state_name : ServerState → String
state_name running = "running"
state_name paused = "paused"
state_name stopped = "stopped"

abbrev pub status_of : Timestamp → ServerSlot → ServerStatus
status_of now slot = record {
  id = slot.id;
  state = state_name slot.state;
  exposed_tools = length (exposed slot now);
  elevated = is_some slot.elevation;
}

abbrev pub collect_names : Option String → List String → List String
collect_names none rest = rest
collect_names (some n) rest = n ∷ rest

-- `filter_map`.
unfoldable pub names_of : {Value : Type 0} → (Value → Option String) → List Value → List String
names_of name_of [] = []
names_of name_of (v ∷ vs) = collect_names (name_of v) (names_of name_of vs)

abbrev pub or_default : Option ℕ → ℕ
or_default none = default_log_limit
or_default (some n) = n

abbrev pub last_entries : ℕ → List String → List String
last_entries limit log = reverse (take limit (reverse log))

module _ {Value Child Spawner Key File : Type 0}
    (ext : Externals Value Child Spawner Key File) where
  abbrev pub status_in : Timestamp → Option (Aggregator Value Child Spawner) → ControlResponse
  status_in now none = internal_error
  status_in now (some a) = ControlResponse.status (map (status_of now) a.state.servers)

  unfoldable pub status : Handler Value Child Spawner Key File → Inputs → ControlResponse
  status h inputs = status_in inputs.now (lock h.aggregator)

  abbrev pub list_in : Timestamp → Option (Aggregator Value Child Spawner) → ControlResponse
  list_in now none = internal_error
  list_in now (some a) =
      ControlResponse.list (names_of ext.name_of (aggregated_tools ext.objects a now))

  unfoldable pub list : Handler Value Child Spawner Key File → Inputs → ControlResponse
  list h inputs = list_in inputs.now (lock h.aggregator)

  abbrev pub logs_in : ℕ → Option (List String) → ControlResponse
  logs_in limit none = internal_error
  logs_in limit (some log) = ControlResponse.logs (last_entries limit log)

  unfoldable pub logs : Handler Value Child Spawner Key File → Option ℕ → ControlResponse
  logs h limit = logs_in (or_default limit) (lock h.log)
