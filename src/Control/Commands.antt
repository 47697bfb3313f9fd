-- ===== src/Control/Commands.antt =====
-- crates/broker/src/control_handler.rs: the lifecycle commands.
use mcp_lock.Prelude.{
  String, Bool, true, false, not, ◌&&◌, Option, none, some, List, [], ◌∷◌, ◌==◌, eq_string, eq_list,
  list_eq,
}
use mcp_lock.Prelude.BTreeMap.{BTreeMap}
use mcp_lock.Prelude.Results.{Result, ok, err}
use mcp_lock.Prelude.Sync.{lock}
use mcp_lock.Prelude.Text.{◌+++◌}
use mcp_lock.Policy.Grant.{Timestamp}
use mcp_lock.Child.{McpChild}
use mcp_lock.Aggregator.Data.{Aggregator, AggregatorError}
use mcp_lock.Aggregator.Lifecycle.{
  start as start_server, stop as stop_server, pause as pause_server, resume as resume_server,
}
use mcp_lock.Aggregator.Listing.{exposure_snapshot}
use mcp_lock.Aggregator.Texts.{aggregator_error_text}
use mcp_lock.Control.Data.{
  ControlResponse, internal_error, Externals, Inputs, Handler, record_line,
  notify_tools_list_changed, set_aggregator,
}

pub data LifecycleOp : Type 0 where
  start stop pause resume : LifecycleOp

abbrev pub verb : LifecycleOp → String
verb LifecycleOp.start = "start"
verb LifecycleOp.stop = "stop"
verb LifecycleOp.pause = "pause"
verb LifecycleOp.resume = "resume"

-- The equality of two snapshots.
unfoldable pub same_snapshot : BTreeMap (List String) → BTreeMap (List String) → Bool
unfolding list_eq
same_snapshot [] [] = true
same_snapshot ((j, xs) ∷ m) ((k, ys) ∷ n) = j == k && xs == ys && same_snapshot m n
same_snapshot _ _ = false

module _ {Value Child Spawner : Type 0} where
  abbrev pub run_op :
      McpChild Value Child Spawner
      → LifecycleOp
      → Aggregator Value Child Spawner
      → String
      → Result (Unit {0}) AggregatorError × Aggregator Value Child Spawner
  run_op ops LifecycleOp.start a id = start_server ops a id
  run_op ops LifecycleOp.stop a id = stop_server a id
  run_op ops LifecycleOp.pause a id = pause_server a id
  run_op ops LifecycleOp.resume a id = resume_server a id

  -- The exposure differs between two states of the aggregator.
  abbrev pub is_changed :
      Aggregator Value Child Spawner → Aggregator Value Child Spawner → Timestamp → Bool
  is_changed a b now = not (same_snapshot (exposure_snapshot b now) (exposure_snapshot a now))

module _ {Value Child Spawner Key File : Type 0}
    (ext : Externals Value Child Spawner Key File) where
  abbrev pub answered :
      Handler Value Child Spawner Key File
      → Inputs
      → LifecycleOp
      → String
      → Aggregator Value Child Spawner
      → Result (Unit {0}) AggregatorError × Aggregator Value Child Spawner
      → ControlResponse × Handler Value Child Spawner Key File
  answered h inputs op id before (ok u, after) = (
    ControlResponse.done (verb op +++ (" " +++ (id +++ ": ok"))),
    record_line
        (notify_tools_list_changed (is_changed before after inputs.now) (set_aggregator h after))
        inputs.logged_at (verb op +++ (" " +++ id)),
  )
  answered h inputs op id before (err e, after) = (
    ControlResponse.error (aggregator_error_text e),
    record_line (set_aggregator h after) inputs.logged_at
        (verb op +++ (" " +++ (id +++ (" failed: " +++ aggregator_error_text e)))),
  )

  abbrev pub lifecycle_in :
      Handler Value Child Spawner Key File
      → Inputs
      → LifecycleOp
      → String
      → Option (Aggregator Value Child Spawner)
      → ControlResponse × Handler Value Child Spawner Key File
  lifecycle_in h inputs op id none = (internal_error, h)
  lifecycle_in h inputs op id (some a) = answered h inputs op id a (run_op ext.children op a id)

  unfoldable pub lifecycle :
      Handler Value Child Spawner Key File
      → Inputs
      → LifecycleOp
      → String
      → ControlResponse × Handler Value Child Spawner Key File
  lifecycle h inputs op id = lifecycle_in h inputs op id (lock h.aggregator)
