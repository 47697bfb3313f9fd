-- ===== src/Client/Requests.antt =====
-- crates/broker/src/mcp_client.rs: a request to a child and the wait for its answer. Times are
-- milliseconds, and pass in a write and in a wait: the parser and the printer take none. A write says
-- how long it took, so that only a write that returns is covered: one that blocks for ever is not.
use mcp_lock.Prelude.{
  ℕ, ◌+◌, ◌-◌, ◌*◌, ◌%◌, ◌^◌, String, Bool, false, Option, none, some, List, [], ◌∷◌, nat_eq, leb,
  if◌then◌else◌,
}
use mcp_lock.Prelude.Bytes.{is_blank}
use mcp_lock.Prelude.Results.{Result, ok, err, then_write}
use mcp_lock.Child.{Code, pos, ChildError, io, protocol, rpc, exited, timeout}
use mcp_lock.Json.{Json, JsonReads, u64_of}

abbrev pub default_request_timeout : ℕ
default_request_timeout = 120 * 1000

-- One item of the reader, or the error that ended the stream, and when it arrives.
pub record Arrival : Type 0 where
  pub at : ℕ
  pub item : Result String String

-- What waits in the channel or arrives later, in that order, and when the reader ends, if it does.
pub record Receiver : Type 0 where
  pub arrivals : List Arrival
  pub closed : Option ℕ

pub record StdioMcpClient (Pipe : Type 0) : Type 0 where
  pub stdin : Pipe
  pub rx : Receiver
  pub next_id : ℕ
  pub timeout : ℕ

pub record ClientExternals (Value Pipe : Type 0) : Type 0 where
  pub json : Json Value
  pub reads : JsonReads Value
  pub write_all : Pipe → String → Result (Unit {0}) String × ℕ × Pipe
  pub flush : Pipe → Result (Unit {0}) String × ℕ × Pipe
  pub version : String

-- What an item is to the request that waits: to be skipped, or its end.
pub data Verdict (Value : Type 0) : Type 0 where
  skip : Verdict Value
  done : Result Value ChildError → Verdict Value

abbrev pub later : ℕ → ℕ → ℕ
later now at = if leb now at then at else now

-- The pipe at a time.
pub record Writer (Pipe : Type 0) : Type 0 where
  pub pipe : Pipe
  pub now : ℕ

abbrev pub as_io :
    {Pipe : Type 0}
    → Result (Unit {0}) String × Writer Pipe
    → Result (Unit {0}) ChildError × Writer Pipe
as_io (ok u, w) = (ok u, w)
as_io (err e, w) = (err (io e), w)

abbrev pub taken :
    {Pipe : Type 0}
    → ℕ
    → Result (Unit {0}) String × ℕ × Pipe
    → Result (Unit {0}) String × Writer Pipe
taken now (r, took, p) = (r, record { pipe = p; now = now + took })

abbrev or_zero : Option Code → Code
or_zero none = pos 0
or_zero (some c) = c

abbrev or_empty : Option String → String
or_empty none = ""
or_empty (some s) = s

abbrev pub is_id : ℕ → Option ℕ → Bool
is_id id none = false
is_id id (some n) = nat_eq n id

-- Whether the reader ends by then, and when that is noticed.
abbrev pub is_by : ℕ → Option ℕ → Bool
is_by limit none = false
is_by limit (some end) = leb end limit

abbrev pub end_at : ℕ → ℕ → Option ℕ → ℕ
end_at now limit none = limit
end_at now limit (some end) = later now end

module _ {Value Pipe : Type 0} (ext : ClientExternals Value Pipe) where
  abbrev pub put : String → Writer Pipe → Result (Unit {0}) String × Writer Pipe
  put s w = taken w.now (ext.write_all w.pipe s)

  abbrev pub flushed : Writer Pipe → Result (Unit {0}) String × Writer Pipe
  flushed w = taken w.now (ext.flush w.pipe)

  abbrev pub written :
      Writer Pipe → Result String String → Result (Unit {0}) ChildError × Writer Pipe
  written w (err e) = (err (protocol e), w)
  written w (ok line) = as_io (then_write (then_write (put line w) (put "\n")) flushed)

  unfoldable pub write_line : Writer Pipe → Value → Result (Unit {0}) ChildError × Writer Pipe
  write_line w message = written w (ext.reads.to_string message)

  abbrev pub code_in : Option Value → Code
  code_in none = pos 0
  code_in (some v) = or_zero (ext.reads.as_i64 v)

  abbrev pub text_in : Option Value → String
  text_in none = ""
  text_in (some v) = or_empty (ext.json.as_str v)

  abbrev pub id_in : Option Value → Option ℕ
  id_in none = none
  id_in (some v) = u64_of (ext.reads.kind v)

  abbrev pub or_null : Option Value → Value
  or_null none = ext.json.null
  or_null (some v) = v

  abbrev pub rpc_error : Value → ChildError
  rpc_error e = rpc (code_in (ext.json.get e "code")) (text_in (ext.json.get e "message"))

  abbrev pub outcome : Value → Option Value → Result Value ChildError
  outcome v (some e) = err (rpc_error e)
  outcome v none = ok (or_null (ext.json.get v "result"))

  abbrev pub judge_value : ℕ → Result Value String → Verdict Value
  judge_value id (err e) = done (err (protocol e))
  judge_value id (ok v) =
      if is_id id (id_in (ext.json.get v "id"))
      then done (outcome v (ext.json.get v "error"))
      else skip

  -- The body of the loop, once an item is there.
  unfoldable pub judge : ℕ → Result String String → Verdict Value
  judge id (err e) = done (err (io e))
  judge id (ok line) = if is_blank line then skip else judge_value id (ext.reads.from_str line)

  abbrev pub settled :
      ℕ
      → List Arrival
      → Verdict Value
      → Result Value ChildError × ℕ × List Arrival
      → Result Value ChildError × ℕ × List Arrival
  settled now rest (done r) more = (r, now, rest)
  settled now rest skip more = more

  -- The loop: the answer, when it is given, and what is left in the channel. An item is received if it
  -- is there within what remains until the deadline; the end of the reader, if that is.
  unfoldable pub wait :
      ℕ → ℕ → Option ℕ → List Arrival → ℕ → Result Value ChildError × ℕ × List Arrival
  wait id deadline closed [] now =
      let limit = now + (deadline - now) in
      if is_by limit closed
      then (err exited, end_at now limit closed, [])
      else (err timeout, limit, [])
  wait id deadline closed (a ∷ rest) now =
      let limit = now + (deadline - now) in
      let more = wait id deadline closed rest (later now a.at) in
      if leb a.at limit
      then settled (later now a.at) rest (judge id a.item) more
      else (err timeout, limit, a ∷ rest)

  abbrev pub message : ℕ → String → Value → Value
  message id method params = ext.json.object (
      ("jsonrpc", ext.json.string "2.0")
      ∷ ("id", ext.json.integer (pos id))
      ∷ ("method", ext.json.string method)
      ∷ ("params", params)
      ∷ [])

  abbrev pub waited :
      StdioMcpClient Pipe
      → Result Value ChildError × ℕ × List Arrival
      → Result Value ChildError × ℕ × StdioMcpClient Pipe
  waited c (r, now, rest) = (r, now, record c { rx = record c.rx { arrivals = rest } })

  abbrev pub sent :
      StdioMcpClient Pipe
      → ℕ
      → Result (Unit {0}) ChildError × Writer Pipe
      → Result Value ChildError × ℕ × StdioMcpClient Pipe
  sent c id (err e, w) = (err e, w.now, record c { stdin = w.pipe })
  sent c id (ok u, w) =
      waited (record c { stdin = w.pipe })
        (wait id (w.now + c.timeout) c.rx.closed c.rx.arrivals w.now)

  abbrev pub writer : StdioMcpClient Pipe → ℕ → Writer Pipe
  writer c now = record { pipe = c.stdin; now = now }

  -- `next_id` is a u64.
  abbrev pub next : ℕ → ℕ
  next id = (id + 1) % 2 ^ 64

  unfoldable pub request :
      StdioMcpClient Pipe → ℕ → String → Value → Result Value ChildError × ℕ × StdioMcpClient Pipe
  request c now method params =
      sent (record c { next_id = next c.next_id }) c.next_id
        (write_line (writer c now) (message c.next_id method params))
