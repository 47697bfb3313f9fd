-- ===== src/Cli/Callable.antt =====
-- What a client of the MCP endpoint may call once the command `elevate` succeeded.
use mcp_lock.Prelude.{
  ℕ, String, ◌≡◌, refl, ap, ◌∙◌, inl, inr, true, false, some, find, ◌==◌, eq_string,
}
use text.Mathlib.TextEquality.{eq_iff}
use mcp_lock.Prelude.BTreeMap.{BTreeMap, get}
use mcp_lock.Prelude.Search.{find-eq-some}
use mcp_lock.Prelude.Text.{◌+++◌, contains, split_once-append}
use mcp_lock.Manifest.{write}
use mcp_lock.Policy.{ClassifiedTool, running}
use mcp_lock.Policy.Exposure.{mem-resolve_exposure}
use mcp_lock.Policy.Grant.{Timestamp, is_active}
use mcp_lock.Broker.{ServerSlot, grant_elevation}
use mcp_lock.Elevation.Challenge.{RequestedMode, elevation_for}
use mcp_lock.Child.{McpChild}
use mcp_lock.Prelude.Results.{ok}
use mcp_lock.Aggregator.Calls.{call}
use mcp_lock.Aggregator.Data.{namespace_sep}
use mcp_lock.Aggregator.Gate.{IsAdmitted, call-eq-ok_iff}
use mcp_lock.Control.Channel.{Served}
use mcp_lock.Cli.Elevates.{Elevated}
use mcp_lock.Cli.Output.{Exit}

-- The gate admits a write tool of an elevated server.
granted_admits :
    {Value Child Spawner Key File : Type 0} (result : Exit × Served Value Child Spawner Key File)
    (children : BTreeMap Child) (server_id : String) (slot : ServerSlot) (wanted : RequestedMode)
    (granted_at : ℕ) (now : Timestamp) (tool : String) (t : ClassifiedTool) (c : Child)
    → Elevated result children server_id slot wanted granted_at
    → slot.state ≡ running
    → find (λ x. x.name == tool) slot.tools ≡ some t
    → t.class ≡ write
    → get server_id children ≡ some c
    → contains server_id namespace_sep ≡ false
    → is_active (elevation_for wanted granted_at) now ≡ true
    → IsAdmitted result.1.handler.aggregator.value (server_id +++ ("." +++ tool)) now
granted_admits result children server_id slot wanted granted_at now tool t c elevated runs listed
      writes child_there whole active =
    let (here, hit) = find-eq-some (λ x. x.name == tool) slot.tools t listed in
    record {
      server_id = server_id;
      tool = tool;
      named = split_once-append server_id tool whole;
      slot = grant_elevation (elevation_for wanted granted_at) slot;
      found = elevated.granted;
      open_now =
          (mem-resolve_exposure slot.tools (some (elevation_for wanted granted_at)) now tool
              slot.state).1
            (record {
              runs = runs;
              tool = t;
              listed = here;
              named = (eq_iff t.name tool).0 hit;
              open_for = inr active;
            });
      approved = inl (rw (listed, writes) refl);
      child_now = c;
      alive = ap (get server_id) elevated.kept ∙ child_there;
    }

-- Once the command has elevated a server that runs and has a child, at every time at which the
-- elevation that was asked for is active, a call of a tool of the server that the manifest declares
-- write, by the name under which it is listed, returns what the child answers.
pub granted_call :
    {Value Child Spawner Key File : Type 0} (ops : McpChild Value Child Spawner)
    (result : Exit × Served Value Child Spawner Key File) (children : BTreeMap Child)
    (server_id : String) (slot : ServerSlot) (wanted : RequestedMode) (granted_at : ℕ)
    (now : Timestamp) (tool : String) (t : ClassifiedTool) (c : Child) (arguments v : Value)
    → Elevated result children server_id slot wanted granted_at
    → slot.state ≡ running
    → find (λ x. x.name == tool) slot.tools ≡ some t
    → t.class ≡ write
    → get server_id children ≡ some c
    → contains server_id namespace_sep ≡ false
    → is_active (elevation_for wanted granted_at) now ≡ true
    → (ops.call_tool c tool arguments).0 ≡ ok v
    → (call ops result.1.handler.aggregator.value (server_id +++ ("." +++ tool)) arguments now).0
      ≡ ok v
unfolding granted_admits
granted_call ops result children server_id slot wanted granted_at now tool t c arguments v elevated
      runs listed writes child_there whole active answers =
    (call-eq-ok_iff ops result.1.handler.aggregator.value (server_id +++ ("." +++ tool)) arguments
        now v).1
      (
        granted_admits result children server_id slot wanted granted_at now tool t c elevated runs
            listed writes child_there whole active,
        answers,
      )
