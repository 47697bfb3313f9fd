-- ===== src/Child.antt =====
-- crates/broker/src/mcp_client.rs: the errors of a child, and the operations that the aggregator
-- calls on one. The child, its answers and the spawner are parameters.
use mcp_lock.Prelude.{ℕ, String, Bool, List}
use mcp_lock.Prelude.Results.{Result}
use mcp_lock.Manifest.{ServerManifest}

-- The i64 code of a JSON-RPC error.
pub data Code : Type 0 where
  pos : ℕ → Code
  negsuc : ℕ → Code

pub data ChildError : Type 0 where
  io protocol : String → ChildError
  rpc : (code : Code) (message : String) → ChildError
  exited timeout : ChildError

pub record ToolDef (Value : Type 0) : Type 0 where
  pub name : String
  pub definition : Value

-- The trait `McpChild` and the spawner. A method that changes the child or the spawner returns its
-- new value.
pub record McpChild (Value Child Spawner : Type 0) : Type 0 where
  pub list_tools : Child → Result (List (ToolDef Value)) ChildError × Child
  pub call_tool : Child → String → Value → Result Value ChildError × Child
  pub is_alive : Child → Bool × Child
  pub spawn : Spawner → ServerManifest → Result Child ChildError × Spawner
