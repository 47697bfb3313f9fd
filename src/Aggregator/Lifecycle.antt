-- ===== src/Aggregator/Lifecycle.antt =====
-- crates/broker/src/aggregator.rs: the operations on a server's life.
use mcp_lock.Prelude.{
  String, not, Option, none, some, [], ◌∷◌, ◌++◌, retain, find, ◌==◌, eq_string, if◌then◌else◌,
}
use mcp_lock.Prelude.BTreeMap.{BTreeMap, insert, remove, contains_key}
use mcp_lock.Prelude.Results.{Result, ok, err}
use mcp_lock.Manifest.{ToolClass, ServerManifest, server as manifest_server}
use mcp_lock.Policy.{ServerState, running, paused, stopped}
use mcp_lock.Policy.Grant.{Timestamp}
use mcp_lock.Broker.{
  ServerSlot, BrokerState, set_tools, set_state as set_slot_state, fail_closed, server, server_mut,
}
use mcp_lock.Child.{McpChild}
use mcp_lock.Aggregator.Data.{
  AggregatorError, unknown_server, SpawnedServer, Aggregator, confirmation_expired,
}
use mcp_lock.Aggregator.Build.{spawn_and_classify}

-- `if let Some(slot) = self.state.server_mut(id) { .. }`.
abbrev pub or_same : BrokerState → Option BrokerState → BrokerState
or_same b none = b
or_same b (some c) = c

abbrev pub if_server_mut : BrokerState → String → (ServerSlot → ServerSlot) → BrokerState
if_server_mut b id f = or_same b (server_mut b id f)

-- A slot whose child is gone.
abbrev pub fault : ServerSlot → ServerSlot
fault slot = fail_closed (set_slot_state stopped slot)

abbrev class_in : Option ServerSlot → String → Option ToolClass
class_in none tool = none
class_in (some slot) tool = elim (find (λ t. t.name == tool) slot.tools) [
  | none ↦ none
  | some t ↦ some t.class
]

module _ {Value Child Spawner : Type 0} where
  unfoldable pub tool_class : Aggregator Value Child Spawner → String → String → Option ToolClass
  tool_class a server_id tool = class_in (server a.state server_id) tool

  unfoldable pub approve_action :
      Aggregator Value Child Spawner → String → String → Timestamp → Aggregator Value Child Spawner
  approve_action a server_id tool now = record a {
    confirmations =
        retain (λ c. not (confirmation_expired c now)) a.confirmations
        ++ record { server_id = server_id; tool = tool; approved_at = now } ∷ [];
  }

  abbrev stated :
      Aggregator Value Child Spawner
      → String
      → Option BrokerState
      → Result (Unit {0}) AggregatorError × Aggregator Value Child Spawner
  stated a id none = (err (unknown_server id), a)
  stated a id (some b) = (ok tt, record a { state = b })

  unfoldable pub set_state :
      Aggregator Value Child Spawner
      → String
      → ServerState
      → Result (Unit {0}) AggregatorError × Aggregator Value Child Spawner
  set_state a id state = stated a id (server_mut a.state id (set_slot_state state))

  unfoldable pub pause :
      Aggregator Value Child Spawner
      → String
      → Result (Unit {0}) AggregatorError × Aggregator Value Child Spawner
  pause a id = set_state a id paused

  unfoldable pub resume :
      Aggregator Value Child Spawner
      → String
      → Result (Unit {0}) AggregatorError × Aggregator Value Child Spawner
  resume a id = set_state a id running

  -- The child is dropped once the slot is set.
  abbrev pub drop_child :
      String
      → Result (Unit {0}) AggregatorError × Aggregator Value Child Spawner
      → Result (Unit {0}) AggregatorError × Aggregator Value Child Spawner
  drop_child id (ok u, a) = (ok tt, record a { children = remove id a.children })
  drop_child id (err e, a) = (err e, a)

  unfoldable pub stop :
      Aggregator Value Child Spawner
      → String
      → Result (Unit {0}) AggregatorError × Aggregator Value Child Spawner
  stop a id = drop_child id (set_state a id stopped)

  abbrev pub respawned :
      Aggregator Value Child Spawner
      → String
      → Result (SpawnedServer Value Child) AggregatorError × Spawner
      → Result (Unit {0}) AggregatorError × Aggregator Value Child Spawner
  respawned a id (err e, spawner) = (err e, record a { spawner = spawner })
  respawned a id (ok (c, tools, defs), spawner) =
      set_state
        (record a {
          spawner = spawner;
          children = insert id c a.children;
          tool_defs = insert id defs a.tool_defs;
          state = if_server_mut a.state id (set_tools tools);
        })
        id running

  abbrev pub start_known :
      McpChild Value Child Spawner
      → Aggregator Value Child Spawner
      → String
      → Option ServerManifest
      → Result (Unit {0}) AggregatorError × Aggregator Value Child Spawner
  start_known ops a id none = (err (unknown_server id), a)
  start_known ops a id (some s) =
      if contains_key id a.children
      then set_state a id running
      else respawned a id (spawn_and_classify ops a.spawner s)

  unfoldable pub start :
      McpChild Value Child Spawner
      → Aggregator Value Child Spawner
      → String
      → Result (Unit {0}) AggregatorError × Aggregator Value Child Spawner
  start ops a id = start_known ops a id (manifest_server a.manifest.manifest id)

  -- The loop over the children: each is asked whether it lives, and its slot is failed if not.
  abbrev pub reap :
      McpChild Value Child Spawner → BTreeMap Child → BrokerState → BTreeMap Child × BrokerState
  reap ops [] b = ([], b)
  reap ops ((id, c) ∷ rest) b =
      let (alive, c') = ops.is_alive c in
      let b' = if alive then b else if_server_mut b id fault in
      let (rest', b'') = reap ops rest b' in ((id, c') ∷ rest', b'')

  unfoldable pub reap_exited_children :
      McpChild Value Child Spawner → Aggregator Value Child Spawner → Aggregator Value Child Spawner
  reap_exited_children ops a =
      let (children, b) = reap ops a.children a.state in record a { children = children; state = b }
