-- ===== src/Aggregator/Build.antt =====
-- crates/broker/src/aggregator.rs: `spawn_and_classify`, `stopped_slot` and `build`.
use mcp_lock.Prelude.{String, List, [], ◌∷◌, ◌++◌, map, if◌then◌else◌}
use mcp_lock.Prelude.Text.{contains}
use mcp_lock.Prelude.BTreeMap.{BTreeMap, insert, collect}
use mcp_lock.Prelude.Results.{Result, ok, err, ◌>>=◌}
use mcp_lock.Manifest.{ServerManifest, LoadedManifest}
use mcp_lock.Policy.{stopped, classify_advertised}
use mcp_lock.Broker.{ServerSlot, new_running, set_state, cold_start}
use mcp_lock.Child.{ChildError, ToolDef, McpChild}
use mcp_lock.Aggregator.Data.{
  namespace_sep, AggregatorError, invalid_server_id, child, SpawnedServer, Aggregator,
}

abbrev pub stopped_slot : ServerManifest → List String → ServerSlot
stopped_slot server advertised =
    set_state stopped (new_running server.id (classify_advertised server.tools advertised))

-- The variables of the loop of `build`.
pub record Built (Value Child Spawner : Type 0) : Type 0 where
  pub spawner : Spawner
  pub children : BTreeMap Child
  pub tool_defs : BTreeMap (BTreeMap Value)
  pub slots : List ServerSlot

module _ {Value Child Spawner : Type 0} (ops : McpChild Value Child Spawner) where
  abbrev advertised_names : List (ToolDef Value) → List String
  advertised_names = map (λ t. t.name)

  abbrev definitions : List (ToolDef Value) → BTreeMap Value
  definitions defs = collect (map (λ t. (t.name, t.definition)) defs)

  -- The answer of a child that was asked for its tools.
  abbrev pub classified :
      ServerManifest
      → Result (List (ToolDef Value)) ChildError × Child
      → Result (SpawnedServer Value Child) AggregatorError
  classified server (ok defs, c) =
      ok (c, classify_advertised server.tools (advertised_names defs), definitions defs)
  classified server (err e, c) = err (child e)

  abbrev pub listed :
      ServerManifest
      → Result Child ChildError × Spawner
      → Result (SpawnedServer Value Child) AggregatorError × Spawner
  listed server (ok c, spawner) = (classified server (ops.list_tools c), spawner)
  listed server (err e, spawner) = (err (child e), spawner)

  unfoldable pub spawn_and_classify :
      Spawner → ServerManifest → Result (SpawnedServer Value Child) AggregatorError × Spawner
  spawn_and_classify spawner server = listed server (ops.spawn spawner server)

  -- The match on what the spawn of one server gave.
  abbrev pub add_server :
      ServerManifest
      → Built Value Child Spawner
      → Result (SpawnedServer Value Child) AggregatorError × Spawner
      → Result (Built Value Child Spawner) AggregatorError
  add_server server b (ok (c, tools, defs), spawner) = ok (record {
    spawner = spawner;
    children = insert server.id c b.children;
    tool_defs = insert server.id defs b.tool_defs;
    slots = b.slots ++ new_running server.id tools ∷ [];
  })
  add_server server b (err (child e), spawner) = ok (record {
    spawner = spawner;
    children = b.children;
    tool_defs = insert server.id [] b.tool_defs;
    slots = b.slots ++ stopped_slot server [] ∷ [];
  })
  add_server server b (err other, spawner) = err other

  unfoldable pub build_servers :
      Built Value Child Spawner
      → List ServerManifest
      → Result (Built Value Child Spawner) AggregatorError
  build_servers b [] = ok b
  build_servers b (server ∷ rest) =
      if contains server.id namespace_sep
      then err (invalid_server_id server.id)
      else (add_server server b (spawn_and_classify b.spawner server) >>= λ c. build_servers c rest)

  abbrev pub unbuilt : Spawner → Built Value Child Spawner
  unbuilt spawner = record { spawner = spawner; children = []; tool_defs = []; slots = [] }

  abbrev pub finish : LoadedManifest → Built Value Child Spawner → Aggregator Value Child Spawner
  finish loaded b = record {
    manifest = loaded;
    spawner = b.spawner;
    state = cold_start b.slots;
    children = b.children;
    tool_defs = b.tool_defs;
    confirmations = [];
  }

  unfoldable pub build :
      LoadedManifest → Spawner → Result (Aggregator Value Child Spawner) AggregatorError
  build loaded spawner =
      build_servers (unbuilt spawner) loaded.manifest.servers >>= λ b. ok (finish loaded b)
