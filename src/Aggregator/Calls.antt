-- ===== src/Aggregator/Calls.antt =====
-- crates/broker/src/aggregator.rs: `call`.
use mcp_lock.Prelude.{
  ℕ, String, Bool, true, false, not, ◌&&◌, Option, none, some, any, find, position, swap_remove,
  ◌==◌, eq_string, if◌then◌else◌,
}
use mcp_lock.Prelude.Text.{split_once}
use mcp_lock.Prelude.BTreeMap.{get, insert}
use mcp_lock.Prelude.Results.{Result, ok, err}
use mcp_lock.Manifest.{requires_per_action_presence}
use mcp_lock.Policy.Grant.{Timestamp}
use mcp_lock.Policy.{ClassifiedTool}
use mcp_lock.Broker.{ServerSlot, exposed, server}
use mcp_lock.Child.{ChildError, io, protocol, rpc, exited, timeout, McpChild}
use mcp_lock.Aggregator.Data.{
  namespace_sep, AggregatorError, unknown_tool, not_exposed, not_confirmed, child, Confirmation,
  Aggregator, confirmation_expired,
}
use mcp_lock.Aggregator.Lifecycle.{if_server_mut, fault}

-- The child crashed or hangs.
abbrev pub is_fault : ChildError → Bool
is_fault exited = true
is_fault (io e) = true
is_fault timeout = true
is_fault (protocol m) = false
is_fault (rpc code m) = false

-- A confirmation that serves for this action at this time.
abbrev pub is_confirmation : String → String → Timestamp → Confirmation → Bool
is_confirmation server_id tool now c =
    c.server_id == server_id && c.tool == tool && not (confirmation_expired c now)

-- The class of a tool asks for a confirmation.
abbrev pub needs_presence : Option ClassifiedTool → Bool
needs_presence none = false
needs_presence (some t) = requires_per_action_presence t.class

module _ {Value Child Spawner : Type 0} (ops : McpChild Value Child Spawner) where
  -- What the child's answer does to its slot.
  abbrev pub settle :
      Aggregator Value Child Spawner
      → String
      → Result Value ChildError
      → Result Value AggregatorError × Aggregator Value Child Spawner
  settle a server_id (ok value) = (ok value, a)
  settle a server_id (err e) = (
    err (child e),
    if is_fault e then record a { state = if_server_mut a.state server_id fault } else a,
  )

  abbrev pub reach :
      Aggregator Value Child Spawner
      → String
      → String
      → Value
      → String
      → Option Child
      → Result Value AggregatorError × Aggregator Value Child Spawner
  reach a server_id tool arguments external_name none = (err (unknown_tool external_name), a)
  reach a server_id tool arguments external_name (some c) =
      let (answer, c') = ops.call_tool c tool arguments in
      settle (record a { children = insert server_id c' a.children }) server_id answer

  -- Behind the gate of the exposure: the confirmation, then the child.
  abbrev pub confirmed :
      Aggregator Value Child Spawner
      → String
      → String
      → Value
      → String
      → Option ℕ
      → Result Value AggregatorError × Aggregator Value Child Spawner
  confirmed a server_id tool arguments external_name none = (err (not_confirmed external_name), a)
  confirmed a server_id tool arguments external_name (some i) =
      reach (record a { confirmations = swap_remove a.confirmations i }) server_id tool arguments
        external_name (get server_id a.children)

  unfoldable pub call_in :
      Aggregator Value Child Spawner
      → ServerSlot
      → String
      → String
      → Value
      → String
      → Timestamp
      → Result Value AggregatorError × Aggregator Value Child Spawner
  call_in a slot server_id tool arguments external_name now =
      if not (any (λ t. t == tool) (exposed slot now))
      then (err (not_exposed external_name), a)
      else if needs_presence (find (λ t. t.name == tool) slot.tools)
      then confirmed a server_id tool arguments external_name
          (position (is_confirmation server_id tool now) a.confirmations)
      else reach a server_id tool arguments external_name (get server_id a.children)

  abbrev pub call_at :
      Aggregator Value Child Spawner
      → Value
      → String
      → Timestamp
      → String
      → String
      → Option ServerSlot
      → Result Value AggregatorError × Aggregator Value Child Spawner
  call_at a arguments external_name now server_id tool none = (err (unknown_tool external_name), a)
  call_at a arguments external_name now server_id tool (some slot) =
      call_in a slot server_id tool arguments external_name now

  abbrev pub call_split :
      Aggregator Value Child Spawner
      → Value
      → String
      → Timestamp
      → Option (String × String)
      → Result Value AggregatorError × Aggregator Value Child Spawner
  call_split a arguments external_name now none = (err (unknown_tool external_name), a)
  call_split a arguments external_name now (some (server_id, tool)) =
      call_at a arguments external_name now server_id tool (server a.state server_id)

  unfoldable pub call :
      Aggregator Value Child Spawner
      → String
      → Value
      → Timestamp
      → Result Value AggregatorError × Aggregator Value Child Spawner
  call a external_name arguments now =
      call_split a arguments external_name now (split_once external_name namespace_sep)
