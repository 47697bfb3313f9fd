-- ===== src/Aggregator/Data.antt =====
-- crates/broker/src/aggregator.rs: the state of the aggregator and its errors.
use mcp_lock.Prelude.{ℕ, ◌-◌, String, Bool, List, ltb}
use mcp_lock.Prelude.BTreeMap.{BTreeMap}
use mcp_lock.Manifest.{LoadedManifest}
use mcp_lock.Policy.{ClassifiedTool}
use mcp_lock.Policy.Grant.{Timestamp}
use mcp_lock.Broker.{BrokerState}
use mcp_lock.Child.{ChildError}

-- A character is its code point.
abbrev pub namespace_sep : ℕ
namespace_sep = b'.'

abbrev pub confirmation_ttl_secs : ℕ
confirmation_ttl_secs = 30

pub record Confirmation : Type 0 where
  pub server_id : String
  pub tool : String
  pub approved_at : Timestamp

pub data AggregatorError : Type 0 where
  invalid_server_id unknown_server unknown_tool not_exposed not_confirmed : String → AggregatorError
  child : ChildError → AggregatorError

abbrev pub SpawnedServer : Type 0 → Type 0 → Type 0
SpawnedServer Value Child = Child × List ClassifiedTool × BTreeMap Value

pub record Aggregator (Value Child Spawner : Type 0) : Type 0 where
  pub manifest : LoadedManifest
  pub spawner : Spawner
  pub state : BrokerState
  pub children : BTreeMap Child
  pub tool_defs : BTreeMap (BTreeMap Value)
  pub confirmations : List Confirmation

abbrev pub confirmation_expired : Confirmation → Timestamp → Bool
confirmation_expired c now = ltb confirmation_ttl_secs (now - c.approved_at)
