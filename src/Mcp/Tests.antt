-- ===== src/Mcp/Tests.antt =====
-- Tests of the MCP handler, and its theorems at concrete inputs. The values are those that the tests
-- need: a request of a method for a tool, its params, texts, and objects by their number of entries.
use mcp_lock.Prelude.{
  ℕ, suc, String, ◌≡◌, refl, Bool, true, false, Option, none, some, List, [], ◌∷◌, ◌==◌, eq_string,
  length, if◌then◌else◌,
}
use mcp_lock.Prelude.Ring.{push_capped, pop_front_while}
use mcp_lock.Prelude.Results.{ok}
use mcp_lock.Prelude.Sync.{new_mutex}
use mcp_lock.Prelude.Text.{split_once, contains, sort}
use mcp_lock.Manifest.{write, ServerManifest, LoadedManifest}
use mcp_lock.Policy.{classify, classify_advertised, resolve_exposure, running}
use mcp_lock.Policy.Grant.{until_revoked, is_active}
use mcp_lock.Broker.{ServerSlot, grant_elevation, server}
use mcp_lock.Audit.{AuditEvent, write_tool_invoked, in_memory, serialize_line, record_event, recent}
use mcp_lock.Child.{McpChild}
use mcp_lock.Json.{Json}
use mcp_lock.Aggregator.Data.{Aggregator}
use mcp_lock.Aggregator.Build.{spawn_and_classify, build_servers, build}
use mcp_lock.Aggregator.Lifecycle.{tool_class}
use mcp_lock.Aggregator.Calls.{call_in, call}
use mcp_lock.Mcp.{BrokerMcpHandler, McpExternals, handle, handle_tools_call, success}
use mcp_lock.Aggregator.Faults.{IsWithin, KeepsOrCloses}
use mcp_lock.Mcp.Outcomes.{handle-IsWithin, write_recorded}

data Value : Type 0 where
  null : Value
  text : String → Value
  params : (name : String) → Value
  request : (method name : String) → Value
  entries : ℕ → Value

abbrev entry_of : Value → String → Option Value
entry_of (params name) k = if k == "name" then some (text name) else none
entry_of (request method name) k =
    if k == "method" then some (text method) else if k == "params" then some (params name) else none
entry_of _ k = none

abbrev text_in : Value → Option String
text_in (text s) = some s
text_in _ = none

abbrev has_entries : Value → Bool
has_entries null = false
has_entries (text s) = false
has_entries _ = true

abbrev json : Json Value
json = record {
  get = entry_of;
  as_str = text_in;
  is_object = has_entries;
  null = null;
  bool = λ b. null;
  integer = λ n. null;
  string = text;
  array = λ vs. entries (length vs);
  object = λ es. entries (length es);
}

abbrev ops : McpChild Value Bool ℕ
ops = record {
  list_tools = λ c. (ok (record { name = "put"; definition = null } ∷ []), c);
  call_tool = λ c tool v. (ok (text tool), c);
  is_alive = λ c. (c, c);
  spawn = λ n s. (ok true, suc n);
}

abbrev line_of : ℕ → AuditEvent → Option String
line_of ts (write_tool_invoked server_id tool) = some tool
line_of ts e = none

abbrev ext : McpExternals Value Bool ℕ (List String)
ext = record {
  children = ops;
  json = json;
  objects = record { as_object = λ v. none; of_object = λ es. null; string = λ s. text s };
  append = λ f line. line ∷ f;
  to_string = line_of;
  version = "0.1.0";
}

abbrev files : ServerManifest
files = record { id = "files"; command = "f"; args = []; env = []; tools = ("put", write) ∷ [] }

abbrev loaded : LoadedManifest
loaded = record { manifest = record { servers = files ∷ [] }; integrity_sha256 = "" }

abbrev slot : ServerSlot
slot = record {
  id = "files";
  tools = record { name = "put"; class = write } ∷ [];
  state = running;
  elevation = none;
}

abbrev with_slot : ServerSlot → Aggregator Value Bool ℕ
with_slot s = record {
  manifest = loaded;
  spawner = 1;
  state = record { servers = s ∷ [] };
  children = ("files", true) ∷ [];
  tool_defs = ("files", ("put", null) ∷ []) ∷ [];
  confirmations = [];
}

abbrev handler : ServerSlot → BrokerMcpHandler Value Bool ℕ (List String)
handler s = record { aggregator = new_mutex (with_slot s); audit = in_memory }

mcp : Unit {0}
unfolding handle handle_tools_call call call_in split_once contains server resolve_exposure sort
    is_active until_revoked tool_class recent record_event push_capped pop_front_while classify
    classify_advertised spawn_and_classify build_servers build
mcp = tt

abbrev elevated : ServerSlot
elevated = grant_elevation (until_revoked 0) slot

gated : (handle ext (handler slot) (request "tools/call" "files.put") 5 0).1 ≡ handler slot
unfolding mcp
gated = refl

written :
    recent (handle ext (handler elevated) (request "tools/call" "files.put") 5 0).1.audit 9
    ≡ "put" ∷ []
unfolding mcp
written = refl

fresh : build ops loaded 0 ≡ ok (with_slot slot)
unfolding mcp
fresh = refl

handle-IsWithin_example :
    let after =
      (handle ext (handler elevated) (request "tools/call" "files.put") 5 0).1.aggregator.value in
    IsWithin (with_slot elevated) after × KeepsOrCloses (with_slot elevated).state after.state
handle-IsWithin_example =
    handle-IsWithin ext (handler elevated) (request "tools/call" "files.put") 5 0

write_recorded_example :
    let (answer, after) =
      handle_tools_call ext (handler elevated) null (some (params "files.put")) 5 0 in
    (answer ≡ success json null (text "put"))
    × (recent after.audit 1 ≡ serialize_line line_of 0 (write_tool_invoked "files" "put") ∷ [])
unfolding mcp
write_recorded_example =
    write_recorded ext (handler elevated) null (params "files.put") "files.put" "files" "put" 5 0
      (with_slot elevated) [] write (text "put") refl refl refl refl refl refl refl refl
