-- ===== src/Control/Grants.antt =====
-- crates/broker/src/control_handler.rs: what a verified signature does, and the revocation.
use mcp_lock.Prelude.{String, Option, none, some, eq_string}
use mcp_lock.Prelude.Results.{Result, ok, err}
use mcp_lock.Prelude.Sync.{lock}
use mcp_lock.Prelude.Text.{◌+++◌}
use mcp_lock.Policy.Mode.{ElevationMode}
use mcp_lock.Policy.Grant.{Elevation, mode}
use mcp_lock.Broker.{ServerSlot, BrokerState, grant_elevation, revoke_elevation, server_mut}
use mcp_lock.Elevation.Challenge.{Verified, ElevationError, error_text}
use mcp_lock.Audit.{
  AuditEvent, elevation_granted, elevation_revoked, confirm_approved, elevation_denied,
}
use mcp_lock.Aggregator.Data.{Aggregator}
use mcp_lock.Aggregator.Lifecycle.{approve_action}
use mcp_lock.Control.Data.{
  ControlResponse, internal_error, Externals, Inputs, Handler, record_line,
  notify_tools_list_changed, set_aggregator, audited,
}
use mcp_lock.Control.Commands.{is_changed}

abbrev pub mode_name : ElevationMode → String
mode_name ElevationMode.duration = "duration"
mode_name ElevationMode.until_revoked = "until_revoked"

abbrev pub reject : ElevationError → ControlResponse
reject e = ControlResponse.error ("verification rejected: " +++ error_text e)

module _ {Value Child Spawner Key File : Type 0}
    (ext : Externals Value Child Spawner Key File) where
  -- A change of one slot's elevation: the response and the events that follow it, or the refusal.
  abbrev pub regrant_in :
      Handler Value Child Spawner Key File
      → Inputs
      → String
      → AuditEvent
      → String
      → String
      → Aggregator Value Child Spawner
      → Option BrokerState
      → ControlResponse × Handler Value Child Spawner Key File
  regrant_in h inputs server_id event line message a none =
      (ControlResponse.error ("unknown server: " +++ server_id), h)
  regrant_in h inputs server_id event line message a (some b) =
      let after = record a { state = b } in
      (
        ControlResponse.done message,
        record_line
            (audited ext inputs event
              (notify_tools_list_changed (is_changed a after inputs.now) (set_aggregator h after)))
            inputs.logged_at line,
      )

  abbrev pub regrant :
      Handler Value Child Spawner Key File
      → Inputs
      → String
      → (ServerSlot → ServerSlot)
      → AuditEvent
      → String
      → String
      → Option (Aggregator Value Child Spawner)
      → ControlResponse × Handler Value Child Spawner Key File
  regrant h inputs server_id change event line message none = (internal_error, h)
  regrant h inputs server_id change event line message (some a) =
      regrant_in h inputs server_id event line message a (server_mut a.state server_id change)

  unfoldable pub apply_elevation :
      Handler Value Child Spawner Key File
      → Inputs
      → String
      → String
      → Elevation
      → ControlResponse × Handler Value Child Spawner Key File
  apply_elevation h inputs client_id server_id elevation =
      let m = mode_name (mode elevation) in
      regrant h inputs server_id (grant_elevation elevation)
        (elevation_granted server_id client_id m)
        ("elevation granted on " +++ (server_id +++ (" (" +++ (m +++ ")"))))
        ("elevated " +++ (server_id +++ (" (" +++ (m +++ ")")))) (lock h.aggregator)

  abbrev pub approve_in :
      Handler Value Child Spawner Key File
      → Inputs
      → String
      → String
      → Option (Aggregator Value Child Spawner)
      → ControlResponse × Handler Value Child Spawner Key File
  approve_in h inputs server_id tool none = (internal_error, h)
  approve_in h inputs server_id tool (some a) = (
    ControlResponse.done ("confirmed " +++ (server_id +++ ("." +++ (tool +++ " (single use)")))),
    record_line
        (audited ext inputs (confirm_approved server_id tool)
          (set_aggregator h (approve_action a server_id tool inputs.now)))
        inputs.logged_at ("confirm approved for " +++ (server_id +++ ("." +++ tool))),
  )

  unfoldable pub apply_confirm :
      Handler Value Child Spawner Key File
      → Inputs
      → String
      → String
      → ControlResponse × Handler Value Child Spawner Key File
  apply_confirm h inputs server_id tool = approve_in h inputs server_id tool (lock h.aggregator)

  unfoldable pub revoke :
      Handler Value Child Spawner Key File
      → Inputs
      → String
      → ControlResponse × Handler Value Child Spawner Key File
  revoke h inputs server_id =
      regrant h inputs server_id revoke_elevation (elevation_revoked server_id "operator")
        ("elevation revoked on " +++ server_id) ("revoked " +++ server_id) (lock h.aggregator)

  -- The match on the verdict, on a handler whose nonces are those that the attempt left.
  abbrev pub apply_verdict :
      Handler Value Child Spawner Key File
      → Inputs
      → String
      → Result Verified ElevationError
      → ControlResponse × Handler Value Child Spawner Key File
  apply_verdict h inputs client_id (ok (Verified.elevation server_id elevation)) =
      apply_elevation h inputs client_id server_id elevation
  apply_verdict h inputs client_id (ok (Verified.confirm server_id tool)) =
      apply_confirm h inputs server_id tool
  apply_verdict h inputs client_id (err e) = (
    reject e,
    record_line (audited ext inputs (elevation_denied "(unknown)" client_id (error_text e)) h)
        inputs.logged_at ("verification rejected for " +++ (client_id +++ (": " +++ error_text e))),
  )
