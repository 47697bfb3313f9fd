-- ===== src/Aggregator/Listing.antt =====
-- crates/broker/src/aggregator.rs: `aggregated_tools` and `exposure_snapshot`.
use mcp_lock.Prelude.{String, Option, none, some, List, [], ◌∷◌, ◌++◌}
use mcp_lock.Prelude.Text.{◌+++◌}
use mcp_lock.Prelude.BTreeMap.{BTreeMap, get, insert}
use mcp_lock.Json.{JsonObjects}
use mcp_lock.Policy.Grant.{Timestamp}
use mcp_lock.Broker.{ServerSlot, exposed, exposure_snapshot as state_snapshot}
use mcp_lock.Aggregator.Data.{Aggregator}

-- `"{server_id}.{tool}"`.
abbrev pub namespaced : String → String → String
namespaced server_id tool = server_id +++ ("." +++ tool)

module _ {Value : Type 0} (objects : JsonObjects Value) where
  -- `if let Some(obj) = def.as_object_mut() { obj.insert("name", ..) }`.
  abbrev pub set_name : String → Value → Option (BTreeMap Value) → Value
  set_name name d none = d
  set_name name d (some entries) = objects.of_object (insert "name" (objects.string name) entries)

  abbrev pub with_name : String → Value → Value
  with_name name d = set_name name d (objects.as_object d)

  abbrev pub push_def : String → String → Option Value → List Value → List Value
  push_def server_id tool none rest = rest
  push_def server_id tool (some d) rest = with_name (namespaced server_id tool) d ∷ rest

  -- The loop over the exposed names of a slot.
  unfoldable pub listed_names : String → BTreeMap Value → List String → List Value
  listed_names server_id defs [] = []
  listed_names server_id defs (tool ∷ rest) =
      push_def server_id tool (get tool defs) (listed_names server_id defs rest)

  abbrev pub listed_slot : ServerSlot → Timestamp → Option (BTreeMap Value) → List Value
  listed_slot slot now none = []
  listed_slot slot now (some defs) = listed_names slot.id defs (exposed slot now)

  unfoldable pub listed_slots : BTreeMap (BTreeMap Value) → Timestamp → List ServerSlot → List Value
  listed_slots tool_defs now [] = []
  listed_slots tool_defs now (slot ∷ rest) =
      listed_slot slot now (get slot.id tool_defs) ++ listed_slots tool_defs now rest

  unfoldable pub aggregated_tools :
      {Child Spawner : Type 0} → Aggregator Value Child Spawner → Timestamp → List Value
  aggregated_tools a now = listed_slots a.tool_defs now a.state.servers

module _ {Value Child Spawner : Type 0} where
  abbrev pub exposure_snapshot : Aggregator Value Child Spawner → Timestamp → BTreeMap (List String)
  exposure_snapshot a now = state_snapshot a.state now
