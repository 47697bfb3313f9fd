-- ===== src/Mail/Server.antt =====
-- crates/mail/src/jsonrpc.rs and server.rs: requests, responses and the loop over the lines of the
-- input. The derived parser of requests and printer of responses are parameters.
use mcp_lock.Prelude.{
  String, Bool, true, false, not, Option, none, some, List, [], ◌∷◌, ◌==◌, eq_string, if◌then◌else◌,
}
use mcp_lock.Prelude.Bytes.{is_blank}
use mcp_lock.Prelude.Results.{Result, ok, err, then_write}
use mcp_lock.Prelude.Text.{◌+++◌}
use mcp_lock.Child.{Code, negsuc}
use mcp_lock.Mail.Store.{MailStore}
use mcp_lock.Mail.Arguments.{ToolExternals}
use mcp_lock.Mail.Tools.{tool_definitions, call}

-- The codes -32700, -32600, -32601 and -32602.
abbrev pub parse_error : Code
parse_error = negsuc 32699

abbrev pub invalid_request : Code
invalid_request = negsuc 32599

abbrev pub method_not_found : Code
method_not_found = negsuc 32600

abbrev pub invalid_params : Code
invalid_params = negsuc 32601

pub record Request (Value : Type 0) : Type 0 where
  pub jsonrpc : String
  pub id : Option Value
  pub method : String
  pub params : Option Value

pub record RpcError : Type 0 where
  pub code : Code
  pub message : String

pub record Response (Value : Type 0) : Type 0 where
  pub jsonrpc : String
  pub id : Value
  pub result : Option Value
  pub error : Option RpcError

abbrev pub is_none : {A : Type 0} → Option A → Bool
is_none none = true
is_none (some a) = false

module _ {Value : Type 0} where
  abbrev pub is_notification : Request Value → Bool
  is_notification req = is_none req.id

  abbrev pub success : Value → Value → Response Value
  success id result = record { jsonrpc = "2.0"; id = id; result = some result; error = none }

  abbrev pub error : Value → Code → String → Response Value
  error id code message = record {
    jsonrpc = "2.0";
    id = id;
    result = none;
    error = some (record { code = code; message = message });
  }

abbrev pub protocol_version : String
protocol_version = "2024-11-05"

pub record MailServer (S : Type 0) : Type 0 where
  pub store : S
  pub server_name : String
  pub server_version : String
  pub default_mailbox : String

pub record ServerExternals (Value S : Type 0) : Type 0 where
  pub tools : ToolExternals Value
  pub ops : MailStore S
  pub parse_request : String → Option (Request Value)
  pub print_response : Response Value → Option String

module _ {Value S : Type 0} (ext : ServerExternals Value S) (server : MailServer S) where
  abbrev pub initialize_result : Value
  initialize_result = ext.tools.json.object (
      ("protocolVersion", ext.tools.json.string protocol_version)
      ∷ (
        "capabilities",
        ext.tools.json.object (
            ("tools", ext.tools.json.object (("listChanged", ext.tools.json.bool false) ∷ []))
            ∷ []),
      )
      ∷ (
        "serverInfo",
        ext.tools.json.object (
            ("name", ext.tools.json.string server.server_name)
            ∷ ("version", ext.tools.json.string server.server_version)
            ∷ []),
      )
      ∷ [])

  abbrev pub tool_response : Value → Result Value String → Response Value
  tool_response id (ok result) = success id result
  tool_response id (err message) = error id invalid_params message

  abbrev pub name_in : Option Value → Option String
  name_in none = none
  name_in (some v) = ext.tools.json.as_str v

  abbrev pub call_named : Value → Value → Option String → Response Value
  call_named id params none = error id invalid_params "tools/call requires a string `name`"
  call_named id params (some name) = tool_response id (
      call ext.tools ext.ops server.store name (ext.tools.json.get params "arguments")
        server.default_mailbox)

  abbrev pub call_params : Value → Option Value → Response Value
  call_params id none = error id invalid_params "tools/call requires a params object"
  call_params id (some params) =
      if ext.tools.json.is_object params
      then call_named id params (name_in (ext.tools.json.get params "name"))
      else error id invalid_params "tools/call requires a params object"

  unfoldable pub handle_tools_call : Value → Option Value → Response Value
  handle_tools_call id params = call_params id params

  -- The match on the method of a request that has an id.
  unfoldable pub dispatch : Value → String → Option Value → Response Value
  unfolding handle_tools_call
  dispatch id method params =
      if method == "initialize"
      then success id initialize_result
      else if method == "ping"
      then success id (ext.tools.json.object [])
      else if method == "tools/list"
      then success id (
          ext.tools.json.object (("tools", ext.tools.json.array (tool_definitions ext.tools)) ∷ []))
      else if method == "tools/call"
      then handle_tools_call id params
      else error id method_not_found ("method not found: " +++ method)

  abbrev pub or_null : Option Value → Value
  or_null none = ext.tools.json.null
  or_null (some v) = v

  unfoldable pub handle_request : Request Value → Option (Response Value)
  unfolding dispatch
  handle_request req =
      if not (req.jsonrpc == "2.0")
      then (if is_notification req
          then none
          else some (error (or_null req.id) invalid_request "jsonrpc must be \"2.0\""))
      else if is_notification req
      then none
      else some (dispatch (or_null req.id) req.method req.params)

  abbrev pub or_internal_error : Option String → String
  or_internal_error none =
      "{\"jsonrpc\":\"2.0\",\"id\":null,\"error\":{\"code\":-32603,\"message\":\"internal error\"}}"
  or_internal_error (some s) = s

  abbrev pub printed : Option (Response Value) → Option String
  printed none = none
  printed (some r) = some (or_internal_error (ext.print_response r))

  abbrev pub response_of : Option (Request Value) → Option (Response Value)
  response_of none = some (error ext.tools.json.null parse_error "invalid JSON")
  response_of (some req) = handle_request req

  unfoldable pub process_line : String → Option String
  unfolding handle_request
  process_line line = printed (response_of (ext.parse_request line))

  module _ {W : Type 0} (write_all : W → String → Result (Unit {0}) String × W)
      (flush : W → Result (Unit {0}) String × W) where
    abbrev pub replied :
        Option String → W → (W → Result (Unit {0}) String × W) → Result (Unit {0}) String × W
    replied none w k = k w
    replied (some text) w k =
        then_write (then_write (then_write (write_all w text) (λ v. write_all v "\n")) flush) k

    -- A line of the input, or the error that ends it.
    unfoldable pub run : List (Result String String) → W → Result (Unit {0}) String × W
    unfolding process_line
    run [] w = (ok tt, w)
    run (err e ∷ lines) w = (err e, w)
    run (ok line ∷ lines) w =
        if is_blank line then run lines w else replied (process_line line) w (run lines)
