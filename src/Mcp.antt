-- ===== src/Mcp.antt =====
-- crates/broker/src/handler.rs: the requests of the MCP client.
-- The version of the package, which the build inserts, is a parameter.
pub mod Outcomes
mod Tests
use mcp_lock.Prelude.{
  ℕ, String, Bool, true, false, Option, none, some, List, [], ◌∷◌, ◌==◌, eq_string, if◌then◌else◌,
}
use mcp_lock.Prelude.Results.{Result, ok, err}
use mcp_lock.Prelude.Sync.{Mutex, lock, store}
use mcp_lock.Prelude.Text.{split_once, ◌+++◌}
use mcp_lock.Manifest.{ToolClass, requires_elevation}
use mcp_lock.Policy.Grant.{Timestamp}
use mcp_lock.Audit.{AuditEvent, write_tool_invoked, confirm_rejected, AuditLog, record_event}
use mcp_lock.Child.{Code, negsuc, McpChild}
use mcp_lock.Json.{Json, JsonObjects}
use mcp_lock.Aggregator.Data.{Aggregator, AggregatorError, not_confirmed}
use mcp_lock.Aggregator.Lifecycle.{tool_class}
use mcp_lock.Aggregator.Calls.{call}
use mcp_lock.Aggregator.Listing.{aggregated_tools}
use mcp_lock.Aggregator.Texts.{aggregator_error_text}

abbrev pub protocol_version : String
protocol_version = "2024-11-05"

-- The codes -32601, -32602 and -32603.
abbrev pub method_not_found : Code
method_not_found = negsuc 32600

abbrev pub invalid_params : Code
invalid_params = negsuc 32601

abbrev pub internal : Code
internal = negsuc 32602

pub record BrokerMcpHandler (Value Child Spawner File : Type 0) : Type 0 where
  pub aggregator : Mutex (Aggregator Value Child Spawner)
  pub audit : AuditLog File

-- What the handler calls outside the repository, and the children.
pub record McpExternals (Value Child Spawner File : Type 0) : Type 0 where
  pub children : McpChild Value Child Spawner
  pub json : Json Value
  pub objects : JsonObjects Value
  pub append : File → String → File
  pub to_string : ℕ → AuditEvent → Option String
  pub version : String

abbrev pub get_in : {Value : Type 0} → Json Value → String → Option Value → Option Value
get_in j k none = none
get_in j k (some v) = j.get v k

abbrev pub text_of : {Value : Type 0} → Json Value → Option Value → Option String
text_of j none = none
text_of j (some v) = j.as_str v

module _ {Value : Type 0} (j : Json Value) where
  abbrev pub success : Value → Value → Value
  success id result = j.object (("jsonrpc", j.string "2.0") ∷ ("id", id) ∷ ("result", result) ∷ [])

  abbrev pub error : Value → Code → String → Value
  error id code message = j.object (
      ("jsonrpc", j.string "2.0")
      ∷ ("id", id)
      ∷ ("error", j.object (("code", j.integer code) ∷ ("message", j.string message) ∷ []))
      ∷ [])

  abbrev pub internal_error : Value → Value
  internal_error id = error id internal "internal error"

  abbrev pub tool_error_result : String → Value
  tool_error_result message = j.object (
      (
        "content",
        j.array (j.object (("type", j.string "text") ∷ ("text", j.string message) ∷ []) ∷ []),
      )
      ∷ ("isError", j.bool true)
      ∷ [])

  abbrev pub initialize_result : String → Value
  initialize_result version = j.object (
      ("protocolVersion", j.string protocol_version)
      ∷ ("capabilities", j.object (("tools", j.object (("listChanged", j.bool true) ∷ [])) ∷ []))
      ∷ (
        "serverInfo",
        j.object (("name", j.string "mcp-lockd") ∷ ("version", j.string version) ∷ []),
      )
      ∷ [])

module _ {Value Child Spawner File : Type 0} (ext : McpExternals Value Child Spawner File) where
  abbrev pub listed : Value → Timestamp → Option (Aggregator Value Child Spawner) → Value
  listed id now none = internal_error ext.json id
  listed id now (some a) =
      success ext.json id
        (ext.json.object (("tools", ext.json.array (aggregated_tools ext.objects a now)) ∷ []))

  unfoldable pub handle_tools_list :
      BrokerMcpHandler Value Child Spawner File → Value → Timestamp → Value
  handle_tools_list h id now = listed id now (lock h.aggregator)

  -- `name.split_once('.').and_then(|(server, tool)| agg.tool_class(server, tool))`.
  abbrev pub class_of : Aggregator Value Child Spawner → Option (String × String) → Option ToolClass
  class_of a none = none
  class_of a (some (server_id, tool)) = tool_class a server_id tool

  -- An event about the tool that a name splits into.
  abbrev pub record_named :
      (String → String → AuditEvent)
      → ℕ
      → Option (String × String)
      → BrokerMcpHandler Value Child Spawner File
      → BrokerMcpHandler Value Child Spawner File
  record_named event wall none h = h
  record_named event wall (some (server_id, tool)) h = record h {
    audit = record_event ext.append ext.to_string h.audit wall (event server_id tool);
  }

  abbrev pub is_write : Option ToolClass → Bool
  is_write none = false
  is_write (some c) = requires_elevation c

  -- The match on the result of the call.
  abbrev pub reported :
      BrokerMcpHandler Value Child Spawner File
      → Value
      → String
      → ℕ
      → Option ToolClass
      → Result Value AggregatorError
      → Value × BrokerMcpHandler Value Child Spawner File
  reported h id name wall class (ok result) = (
    success ext.json id result,
    if is_write class then record_named write_tool_invoked wall (split_once name b'.') h else h,
  )
  reported h id name wall class (err (not_confirmed n)) = (
    success ext.json id (tool_error_result ext.json (aggregator_error_text (not_confirmed n))),
    record_named confirm_rejected wall (split_once name b'.') h,
  )
  reported h id name wall class (err e) =
      (success ext.json id (tool_error_result ext.json (aggregator_error_text e)), h)

  abbrev pub called :
      BrokerMcpHandler Value Child Spawner File
      → Value
      → String
      → Value
      → Timestamp
      → ℕ
      → Option (Aggregator Value Child Spawner)
      → Value × BrokerMcpHandler Value Child Spawner File
  called h id name arguments now wall none = (internal_error ext.json id, h)
  called h id name arguments now wall (some a) =
      let (result, after) = call ext.children a name arguments now in
      reported (record h { aggregator = store h.aggregator after }) id name wall
        (class_of a (split_once name b'.')) result

  abbrev pub or_empty : Option Value → Value
  or_empty none = ext.json.object []
  or_empty (some v) = v

  abbrev pub call_named :
      BrokerMcpHandler Value Child Spawner File
      → Value
      → Value
      → Timestamp
      → ℕ
      → Option String
      → Value × BrokerMcpHandler Value Child Spawner File
  call_named h id params now wall none =
      (error ext.json id invalid_params "tools/call requires a string `name`", h)
  call_named h id params now wall (some name) =
      called h id name (or_empty (ext.json.get params "arguments")) now wall (lock h.aggregator)

  -- `params.and_then(Value::as_object)`.
  abbrev pub object_in : Option Value → Option Value
  object_in none = none
  object_in (some v) = if ext.json.is_object v then some v else none

  abbrev pub call_params :
      BrokerMcpHandler Value Child Spawner File
      → Value
      → Timestamp
      → ℕ
      → Option Value
      → Value × BrokerMcpHandler Value Child Spawner File
  call_params h id now wall none =
      (error ext.json id invalid_params "tools/call requires a params object", h)
  call_params h id now wall (some params) =
      call_named h id params now wall (text_of ext.json (ext.json.get params "name"))

  -- `wall` is the time of the tape.
  unfoldable pub handle_tools_call :
      BrokerMcpHandler Value Child Spawner File
      → Value
      → Option Value
      → Timestamp
      → ℕ
      → Value × BrokerMcpHandler Value Child Spawner File
  handle_tools_call h id params now wall = call_params h id now wall (object_in params)

  abbrev pub or_null : Option Value → Value
  or_null none = ext.json.null
  or_null (some v) = v

  abbrev pub or_blank : Option String → String
  or_blank none = ""
  or_blank (some s) = s

  abbrev pub by_method :
      BrokerMcpHandler Value Child Spawner File
      → Value
      → Value
      → String
      → Timestamp
      → ℕ
      → Value × BrokerMcpHandler Value Child Spawner File
  by_method h request id method now wall =
      if method == "initialize"
      then (success ext.json id (initialize_result ext.json ext.version), h)
      else if method == "ping"
      then (success ext.json id (ext.json.object []), h)
      else if method == "tools/list"
      then (handle_tools_list h id now, h)
      else if method == "tools/call"
      then handle_tools_call h id (ext.json.get request "params") now wall
      else (error ext.json id method_not_found ("method not found: " +++ method), h)

  -- The validated client is not looked at.
  unfoldable pub handle :
      BrokerMcpHandler Value Child Spawner File
      → Value
      → Timestamp
      → ℕ
      → Value × BrokerMcpHandler Value Child Spawner File
  handle h request now wall =
      by_method h request (or_null (ext.json.get request "id"))
        (or_blank (text_of ext.json (ext.json.get request "method"))) now wall
