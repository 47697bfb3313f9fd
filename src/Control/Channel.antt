-- ===== src/Control/Channel.antt =====
-- crates/transport/src/control.rs: one request over the control socket, and its response. A line, the
-- serializer and the parser are parameters; the socket delivers each line.
use mcp_lock.Prelude.{String, ◌≡◌, refl, Option, none, some, List, [], ◌∷◌}
use mcp_lock.Prelude.Results.{Result, ok, err}
use mcp_lock.Prelude.Text.{◌+++◌}
use mcp_lock.Control.Data.{ControlRequest, ControlResponse, Externals, Inputs, Handler}
use mcp_lock.Control.Handle.{handle}

pub record Wire (Line : Type 0) : Type 0 where
  pub print_request : ControlRequest → Option Line
  pub parse_request : Line → Result ControlRequest String
  pub print_response : ControlResponse → Option Line
  pub parse_response : Line → Result ControlResponse String

-- What is printed is read back.
pub record IsFaithful {Line : Type 0} (wire : Wire Line) : Type 0 where
  pub reads_request :
      (r : ControlRequest)
      → (line : Line) × (wire.print_request r ≡ some line) × (wire.parse_request line ≡ ok r)
  pub reads_response :
      (r : ControlResponse)
      → (line : Line) × (wire.print_response r ≡ some line) × (wire.parse_response line ≡ ok r)

-- A broker and what each of the requests to come reads; once there are none it is gone.
pub record Served (Value Child Spawner Key File : Type 0) : Type 0 where
  pub handler : Handler Value Child Spawner Key File
  pub inputs : List Inputs

module _ {Value Child Spawner Key File Line : Type 0} (wire : Wire Line)
    (ext : Externals Value Child Spawner Key File) where
  abbrev pub answer_line :
      Handler Value Child Spawner Key File
      → Inputs
      → Result ControlRequest String
      → ControlResponse × Handler Value Child Spawner Key File
  answer_line h inputs (ok request) = handle ext h inputs request
  answer_line h inputs (err e) = (ControlResponse.error ("bad request: " +++ e), h)

  -- The line that is written, if one is.
  unfoldable pub serve_connection :
      Handler Value Child Spawner Key File
      → Inputs
      → Line
      → Option Line × Handler Value Child Spawner Key File
  serve_connection h inputs line =
      let (response, after) = answer_line h inputs (wire.parse_request line) in
      (wire.print_response response, after)

  abbrev pub response_of : Option Line → Result ControlResponse String
  response_of none = err "broker closed the control connection without a response"
  response_of (some line) = wire.parse_response line

  abbrev pub exchanged :
      Handler Value Child Spawner Key File
      → Inputs
      → List Inputs
      → Option Line
      → Result ControlResponse String × Served Value Child Spawner Key File
  exchanged h inputs rest none =
      (err "not serializable", record { handler = h; inputs = inputs ∷ rest })
  exchanged h inputs rest (some line) =
      let (reply, after) = serve_connection h inputs line in
      (response_of reply, record { handler = after; inputs = rest })

  abbrev pub request_to :
      Handler Value Child Spawner Key File
      → List Inputs
      → ControlRequest
      → Result ControlResponse String × Served Value Child Spawner Key File
  request_to h [] r = (err "connection refused", record { handler = h; inputs = [] })
  request_to h (inputs ∷ rest) r = exchanged h inputs rest (wire.print_request r)

  -- `ControlClient::request`.
  unfoldable pub request :
      Served Value Child Spawner Key File
      → ControlRequest
      → Result ControlResponse String × Served Value Child Spawner Key File
  unfolding serve_connection
  request w r = request_to w.handler w.inputs r

  -- A request comes back with the handler's own answer.
  pub request-handle :
      (h : Handler Value Child Spawner Key File) (inputs : Inputs) (rest : List Inputs)
      (r : ControlRequest)
      → IsFaithful wire
      → request (record { handler = h; inputs = inputs ∷ rest }) r ≡ (
        ok (handle ext h inputs r).0,
        record { handler = (handle ext h inputs r).1; inputs = rest },
      )
  unfolding request
  request-handle h inputs rest r faithful =
      let (line, p, q) = faithful.reads_request r in
      let (reply, s, t) = faithful.reads_response (handle ext h inputs r).0 in
      rw (p, request, q, s, t) refl
