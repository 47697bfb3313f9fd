-- ===== src/Aggregator/Actions.antt =====
-- The operations on an aggregator, one after another, and the states that they lead to.
use mcp_lock.Prelude.{String, ◌≡◌}
use mcp_lock.Prelude.Results.{ok}
use mcp_lock.Manifest.{LoadedManifest}
use mcp_lock.Policy.Grant.{Timestamp}
use mcp_lock.Child.{McpChild}
use mcp_lock.Aggregator.Data.{Aggregator}
use mcp_lock.Aggregator.Build.{build}
use mcp_lock.Aggregator.Lifecycle.{approve_action, pause, resume, stop, start, reap_exited_children}
use mcp_lock.Aggregator.Calls.{call}

-- Every operation but a grant of an elevation, which goes through `state_mut`.
pub data Step {Value Child Spawner : Type 0} (ops : McpChild Value Child Spawner)
    : Aggregator Value Child Spawner → Aggregator Value Child Spawner → Type 0 where
  approves :
      (a : Aggregator Value Child Spawner) (server_id tool : String) (now : Timestamp)
      → Step ops a (approve_action a server_id tool now)
  pauses : (a : Aggregator Value Child Spawner) (id : String) → Step ops a (pause a id).1
  resumes : (a : Aggregator Value Child Spawner) (id : String) → Step ops a (resume a id).1
  stops : (a : Aggregator Value Child Spawner) (id : String) → Step ops a (stop a id).1
  starts : (a : Aggregator Value Child Spawner) (id : String) → Step ops a (start ops a id).1
  calls :
      (a : Aggregator Value Child Spawner) (external_name : String) (arguments : Value)
      (now : Timestamp)
      → Step ops a (call ops a external_name arguments now).1
  reaps : (a : Aggregator Value Child Spawner) → Step ops a (reap_exited_children ops a)

-- What any number of such operations reach from a fresh aggregator. The children may answer
-- differently at each step.
pub data Reach {Value Child Spawner : Type 0} (loaded : LoadedManifest)
    : Aggregator Value Child Spawner → Type 0 where
  built :
      (ops : McpChild Value Child Spawner) (spawner : Spawner) (a : Aggregator Value Child Spawner)
      → build ops loaded spawner ≡ ok a
      → Reach loaded a
  next :
      {a b : Aggregator Value Child Spawner} (ops : McpChild Value Child Spawner)
      → Reach loaded a
      → Step ops a b
      → Reach loaded b
