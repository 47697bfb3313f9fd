-- ===== src/Control/Handle.antt =====
-- crates/broker/src/control_handler.rs: `handle`.
use mcp_lock.Control.Data.{ControlRequest, ControlResponse, Externals, Inputs, Handler}
use mcp_lock.Control.Observe.{status, list, logs}
use mcp_lock.Control.Commands.{LifecycleOp, lifecycle}
use mcp_lock.Control.Presence.{request_elevation, request_confirm, submit}
use mcp_lock.Control.Grants.{revoke}

module _ {Value Child Spawner Key File : Type 0}
    (ext : Externals Value Child Spawner Key File) where
  unfoldable pub handle :
      Handler Value Child Spawner Key File
      → Inputs
      → ControlRequest
      → ControlResponse × Handler Value Child Spawner Key File
  handle h inputs ControlRequest.status = (status ext h inputs, h)
  handle h inputs ControlRequest.list = (list ext h inputs, h)
  handle h inputs (ControlRequest.logs limit) = (logs ext h limit, h)
  handle h inputs (ControlRequest.start id) = lifecycle ext h inputs LifecycleOp.start id
  handle h inputs (ControlRequest.stop id) = lifecycle ext h inputs LifecycleOp.stop id
  handle h inputs (ControlRequest.pause id) = lifecycle ext h inputs LifecycleOp.pause id
  handle h inputs (ControlRequest.resume id) = lifecycle ext h inputs LifecycleOp.resume id
  handle h inputs (ControlRequest.request_elevation client_id server_id mode ttl_secs) =
      request_elevation ext h inputs client_id server_id mode ttl_secs
  handle h inputs (ControlRequest.submit_elevation client_id nonce signature) =
      submit ext h inputs client_id nonce signature
  handle h inputs (ControlRequest.request_confirm client_id server_id tool) =
      request_confirm ext h inputs client_id server_id tool
  handle h inputs (ControlRequest.submit_confirm client_id nonce signature) =
      submit ext h inputs client_id nonce signature
  handle h inputs (ControlRequest.revoke id) = revoke ext h inputs id
