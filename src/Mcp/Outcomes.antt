-- ===== src/Mcp/Outcomes.antt =====
-- What a request of the MCP client leaves behind.
use mcp_lock.Prelude.{
  ℕ, String, ◌≡◌, refl, inl, inr, true, Option, none, some, List, [], ◌∷◌, Bool-cases, Option-cases,
  ◌==◌, eq_string,
}
use mcp_lock.Prelude.Results.{Result, ok, err}
use mcp_lock.Prelude.Sync.{new_mutex, lock, lock-cases, store}
use mcp_lock.Prelude.Text.{split_once}
use mcp_lock.Manifest.{ToolClass, LoadedManifest, requires_elevation}
use mcp_lock.Policy.Grant.{Timestamp}
use mcp_lock.Audit.{AuditEvent, write_tool_invoked, confirm_rejected, serialize_line, recent}
use mcp_lock.Audit.Tape.{recent-record_event}
use mcp_lock.Aggregator.Data.{
  Aggregator, AggregatorError, invalid_server_id, unknown_server, unknown_tool, not_exposed,
  not_confirmed, child,
}
use mcp_lock.Aggregator.Lifecycle.{tool_class}
use mcp_lock.Aggregator.Calls.{call}
use mcp_lock.Aggregator.Faults.{IsWithin, IsWithin-refl, KeepsOrCloses, call-IsWithin}
use mcp_lock.Aggregator.Actions.{Reach, next, calls}
use mcp_lock.Mcp.{
  BrokerMcpHandler, McpExternals, by_method, or_blank, reported, record_named, called, object_in,
  text_of, or_empty, class_of, handle_tools_call, handle, success,
}

module _ {Value Child Spawner File : Type 0} (ext : McpExternals Value Child Spawner File) where
  record_named-aggregator :
      (event : String → String → AuditEvent) (wall : ℕ) (o : Option (String × String))
      (h : BrokerMcpHandler Value Child Spawner File)
      → (record_named ext event wall o h).aggregator ≡ h.aggregator
  record_named-aggregator event wall none h = refl
  record_named-aggregator event wall (some (server_id, tool)) h = refl

  reported-aggregator :
      (h : BrokerMcpHandler Value Child Spawner File) (id : Value) (name : String) (wall : ℕ)
      (class : Option ToolClass) (r : Result Value AggregatorError)
      → (reported ext h id name wall class r).1.aggregator ≡ h.aggregator
  reported-aggregator h id name wall none (ok v) = refl
  reported-aggregator h id name wall (some c) (ok v) = elim (Bool-cases (requires_elevation c)) [
    | inl writes ↦ rw writes (record_named-aggregator write_tool_invoked wall _ h)
    | inr reads ↦ rw reads refl
  ]
  reported-aggregator h id name wall class (err (not_confirmed n)) =
      record_named-aggregator confirm_rejected wall _ h
  reported-aggregator h id name wall class (err (invalid_server_id n)) = refl
  reported-aggregator h id name wall class (err (unknown_server n)) = refl
  reported-aggregator h id name wall class (err (unknown_tool n)) = refl
  reported-aggregator h id name wall class (err (not_exposed n)) = refl
  reported-aggregator h id name wall class (err (child e)) = refl

  -- What a request leaves is the aggregator as it was, or as a call leaves it.
  module _ (P : Aggregator Value Child Spawner → Type 0)
      (h : BrokerMcpHandler Value Child Spawner File) (now : Timestamp) (wall : ℕ)
      (stays : P h.aggregator.value)
      (after_call : (name : String) (arguments : Value)
        → P (call ext.children h.aggregator.value name arguments now).1) where
    called_lem :
        (id : Value) (name : String) (arguments : Value)
        → P (called ext h id name arguments now wall (lock h.aggregator)).1.aggregator.value
    called_lem id name arguments = elim (lock-cases h.aggregator) [
      | inl bad ↦ rw bad stays
      | inr fine ↦
          rw
            (
              fine,
              reported-aggregator
                  (record h {
                    aggregator =
                        store h.aggregator
                          (call ext.children h.aggregator.value name arguments now).1;
                  })
                  id name wall (class_of ext h.aggregator.value (split_once name b'.'))
                  (call ext.children h.aggregator.value name arguments now).0,
            )
            (after_call name arguments)
    ]

    handle_tools_call_lem :
        (id : Value) (params : Option Value)
        → P (handle_tools_call ext h id params now wall).1.aggregator.value
    unfolding handle_tools_call
    handle_tools_call_lem id params = elim (Option-cases (object_in ext params)) [
      | inl bad ↦ rw (bad, handle_tools_call) stays
      | inr (p, is_object) ↦ elim (Option-cases (text_of ext.json (ext.json.get p "name"))) [
        | inl bad ↦ rw (is_object, bad, handle_tools_call) stays
        | inr (name, named) ↦ rw (is_object, named, handle_tools_call) (called_lem id name _)
      ]
    ]

    by_method_lem :
        (request id : Value) (method : String)
        → P (by_method ext h request id method now wall).1.aggregator.value
    by_method_lem request id method = elim (Bool-cases (method == "initialize")) [
      | inl y ↦ rw y stays
      | inr n ↦ elim (Bool-cases (method == "ping")) [
        | inl y ↦ rw (n, y) stays
        | inr m ↦ elim (Bool-cases (method == "tools/list")) [
          | inl y ↦ rw (n, m, y) stays
          | inr l ↦ elim (Bool-cases (method == "tools/call")) [
            | inl y ↦ rw (n, m, l, y) (handle_tools_call_lem id (ext.json.get request "params"))
            | inr o ↦ rw (n, m, l, o) stays
          ]
        ]
      ]
    ]

    handle_lem : (request : Value) → P (handle ext h request now wall).1.aggregator.value
    unfolding handle
    handle_lem request =
        by_method_lem request _ (or_blank ext (text_of ext.json (ext.json.get request "method")))

  -- A request of the MCP client leaves an aggregator that calls reach from the one before it.
  pub handle-Reach :
      (loaded : LoadedManifest) (h : BrokerMcpHandler Value Child Spawner File) (request : Value)
      (now : Timestamp) (wall : ℕ)
      → Reach loaded h.aggregator.value
      → Reach loaded (handle ext h request now wall).1.aggregator.value
  handle-Reach loaded h request now wall r =
      handle_lem (Reach loaded) h now wall r
        (λ name arguments. next ext.children r (calls h.aggregator.value name arguments now))
        request

  -- No request of the MCP client, whatever it holds, approves, elevates or starts anything: each
  -- approval that is left was there before, no server has a child that had none, and each slot is as
  -- it was, or else stopped and without an elevation.
  pub handle-IsWithin :
      (h : BrokerMcpHandler Value Child Spawner File) (request : Value) (now : Timestamp) (wall : ℕ)
      → let after = (handle ext h request now wall).1.aggregator.value in
        IsWithin h.aggregator.value after × KeepsOrCloses h.aggregator.value.state after.state
  handle-IsWithin h request now wall =
      handle_lem
        (λ b. IsWithin h.aggregator.value b × KeepsOrCloses h.aggregator.value.state b.state) h now
        wall (IsWithin-refl h.aggregator.value, λ id. inl refl)
        (λ name arguments. call-IsWithin ext.children h.aggregator.value name arguments now) request

  -- A call that returns a value, of a tool that is not read-only, is the last line of the tape.
  pub write_recorded :
      (h : BrokerMcpHandler Value Child Spawner File) (id params : Value)
      (name server_id tool : String) (now : Timestamp) (wall : ℕ)
      (a : Aggregator Value Child Spawner) (past : List String) (c : ToolClass) (v : Value)
      → object_in ext (some params) ≡ some params
      → text_of ext.json (ext.json.get params "name") ≡ some name
      → h.aggregator ≡ new_mutex a
      → h.audit.recent_lines ≡ new_mutex past
      → split_once name b'.' ≡ some (server_id, tool)
      → tool_class a server_id tool ≡ some c
      → requires_elevation c ≡ true
      → (call ext.children a name (or_empty ext (ext.json.get params "arguments")) now).0 ≡ ok v
      → let (answer, after) = handle_tools_call ext h id (some params) now wall in
        (answer ≡ success ext.json id v)
        × (recent after.audit 1
            ≡ serialize_line ext.to_string wall (write_tool_invoked server_id tool) ∷ [])
  unfolding handle_tools_call
  write_recorded h id params name server_id tool now wall a past c v is_object named free tape split
        class writes returned =
      rw (is_object, named, free, split, class, returned, writes, split, handle_tools_call)
        (
          refl,
          recent-record_event ext.append ext.to_string h.audit past wall
              (write_tool_invoked server_id tool) tape,
        )
