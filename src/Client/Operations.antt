-- ===== src/Client/Operations.antt =====
-- crates/broker/src/mcp_client.rs: what a child is asked: the handshake, its tools and a call.
use mcp_lock.Prelude.{ℕ, String, Option, none, some, List, [], ◌∷◌}
use mcp_lock.Prelude.Results.{Result, ok, err}
use mcp_lock.Child.{ChildError, ToolDef}
use mcp_lock.Client.Requests.{
  Receiver, StdioMcpClient, ClientExternals, write_line, writer, request,
}

abbrev pub protocol_version : String
protocol_version = "2024-11-05"

abbrev or_nil : {A : Type 0} → Option (List A) → List A
or_nil none = []
or_nil (some xs) = xs

module _ {Value Pipe : Type 0} (ext : ClientExternals Value Pipe) where
  unfoldable pub notify :
      StdioMcpClient Pipe
      → ℕ
      → String
      → Value
      → Result (Unit {0}) ChildError × ℕ × StdioMcpClient Pipe
  notify c now method params =
      let (r, w) = write_line ext (writer ext c now) (
        ext.json.object (
          ("jsonrpc", ext.json.string "2.0")
          ∷ ("method", ext.json.string method)
          ∷ ("params", params)
          ∷ [])) in
      (r, w.now, record c { stdin = w.pipe })

  abbrev initialized :
      Result Value ChildError × ℕ × StdioMcpClient Pipe
      → Result (Unit {0}) ChildError × ℕ × StdioMcpClient Pipe
  initialized (err e, now, c) = (err e, now, c)
  initialized (ok v, now, c) = notify c now "notifications/initialized" (ext.json.object [])

  unfoldable pub initialize :
      StdioMcpClient Pipe → ℕ → Result (Unit {0}) ChildError × ℕ × StdioMcpClient Pipe
  unfolding request notify
  initialize c now = initialized (
      request ext c now "initialize" (
        ext.json.object (
          ("protocolVersion", ext.json.string protocol_version)
          ∷ ("capabilities", ext.json.object [])
          ∷ (
            "clientInfo",
            ext.json.object (
                ("name", ext.json.string "mcp-lockd")
                ∷ ("version", ext.json.string ext.version)
                ∷ []),
          )
          ∷ [])))

  -- `StdioMcpClient::spawn_with_timeout`, once the process and its two pipes are there.
  unfoldable pub spawn :
      Pipe → Receiver → ℕ → ℕ → Result (Unit {0}) ChildError × ℕ × StdioMcpClient Pipe
  unfolding initialize
  spawn stdin rx limit now =
      initialize (record { stdin = stdin; rx = rx; next_id = 1; timeout = limit }) now

  abbrev def_of : Value → Option String → List (ToolDef Value) → List (ToolDef Value)
  def_of def none defs = defs
  def_of def (some name) defs = record { name = name; definition = def } ∷ defs

  abbrev name_in : Option Value → Option String
  name_in none = none
  name_in (some v) = ext.json.as_str v

  abbrev pub tool_defs : List Value → List (ToolDef Value)
  tool_defs [] = []
  tool_defs (def ∷ defs) = def_of def (name_in (ext.json.get def "name")) (tool_defs defs)

  abbrev array_in : Option Value → List Value
  array_in none = []
  array_in (some v) = or_nil (ext.reads.as_array v)

  abbrev listed :
      Result Value ChildError × ℕ × StdioMcpClient Pipe
      → Result (List (ToolDef Value)) ChildError × ℕ × StdioMcpClient Pipe
  listed (err e, now, c) = (err e, now, c)
  listed (ok v, now, c) = (ok (tool_defs (array_in (ext.json.get v "tools"))), now, c)

  unfoldable pub list_tools :
      StdioMcpClient Pipe → ℕ → Result (List (ToolDef Value)) ChildError × ℕ × StdioMcpClient Pipe
  unfolding request
  list_tools c now = listed (request ext c now "tools/list" (ext.json.object []))

  unfoldable pub call_tool :
      StdioMcpClient Pipe → ℕ → String → Value → Result Value ChildError × ℕ × StdioMcpClient Pipe
  unfolding request
  call_tool c now name arguments =
      request ext c now "tools/call"
        (ext.json.object (("name", ext.json.string name) ∷ ("arguments", arguments) ∷ []))
