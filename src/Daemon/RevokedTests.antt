-- ===== src/Daemon/RevokedTests.antt =====
-- A revocation by the control channel, followed by a call of the MCP client. A value is a text, and each
-- request is a call of files.put.
use mcp_lock.Prelude.{
  ℕ, suc, String, ◌≡◌, refl, Bool, true, none, some, Option, List, [], ◌∷◌, Memᴰ, arith, ◌==◌,
  eq_string, if◌then◌else◌,
}
use mcp_lock.Prelude.Results.{ok}
use mcp_lock.Prelude.Ring.{push_capped}
use mcp_lock.Prelude.Sync.{new_mutex}
use mcp_lock.Prelude.Text.{split_once, sort}
use mcp_lock.Manifest.{read, write, ServerManifest}
use mcp_lock.Policy.{ClassifiedTool, resolve_exposure, running}
use mcp_lock.Policy.Grant.{until_revoked, is_active}
use mcp_lock.Broker.{
  ServerSlot, grant_elevation, server, update_slot, server_mut, exposure_snapshot,
}
use mcp_lock.Elevation.Store.{new_registry, new_store}
use mcp_lock.Audit.{in_memory, record_event}
use mcp_lock.Child.{McpChild}
use mcp_lock.Json.{Json, JsonObjects}
use mcp_lock.Aggregator.Calls.{call_in, call}
use mcp_lock.Mcp.{McpExternals, handle as mcp_handle, handle_tools_call}
use mcp_lock.Control.Data.{ControlRequest, ControlResponse, Externals, Inputs, Handler, record_line}
use mcp_lock.Control.Commands.{same_snapshot}
use mcp_lock.Control.Grants.{revoke}
use mcp_lock.Control.Handle.{handle}
use mcp_lock.Daemon.{ControlOwn, Served, own_of}
use mcp_lock.Daemon.Requests.{control_handler, mcp_request, control_request}
use mcp_lock.Daemon.Asked.{unasked, asks}
use mcp_lock.Daemon.Revoked.{revoked_read_only}

abbrev ops : McpChild String Bool ℕ
ops = record {
  list_tools = λ c. (ok [], c);
  call_tool = λ c tool v. (ok v, c);
  is_alive = λ c. (c, c);
  spawn = λ n s. (ok true, suc n);
}

abbrev objects : JsonObjects String
objects = record { as_object = λ v. none; of_object = λ es. ""; string = λ s. s }

abbrev entry_of : String → String → Option String
entry_of v k =
    if k == "method"
    then some "tools/call"
    else if k == "params"
    then some "params"
    else if k == "name"
    then some "files.put"
    else none

abbrev json : Json String
json = record {
  get = entry_of;
  as_str = some;
  is_object = λ v. true;
  null = "";
  bool = λ b. "";
  integer = λ n. "";
  string = λ s. s;
  array = λ vs. "";
  object = λ es. "";
}

abbrev mcp_ext : McpExternals String Bool ℕ (List String)
mcp_ext = record {
  children = ops;
  json = json;
  objects = objects;
  append = λ f line. line ∷ f;
  to_string = λ ts e. some "line";
  version = "0.1.0";
}

abbrev ext : Externals String Bool ℕ ℕ (List String)
ext = record {
  children = ops;
  objects = objects;
  name_of = some;
  verify_strict = λ k m s. true;
  to_vec = λ d. [];
  append = λ f line. line ∷ f;
  to_string = λ ts e. some "line";
}

abbrev files : ServerManifest
files = record {
  id = "files";
  command = "f";
  args = [];
  env = [];
  tools = ("get", read) ∷ ("put", write) ∷ [];
}

abbrev slot : ServerSlot
slot = record {
  id = "files";
  tools = record { name = "get"; class = read } ∷ record { name = "put"; class = write } ∷ [];
  state = running;
  elevation = none;
}

abbrev own : ControlOwn ℕ
own = record {
  notified = 0;
  nonces = new_mutex new_store;
  registry = new_registry;
  log = new_mutex [];
}

-- The server files is elevated.
abbrev started : Served String Bool ℕ ℕ (List String)
started = record {
  validator = record { expected = []; client_id = "mcp-client" };
  aggregator = new_mutex (record {
    manifest = record { manifest = record { servers = files ∷ [] }; integrity_sha256 = "" };
    spawner = 0;
    state = record { servers = grant_elevation (until_revoked 0) slot ∷ [] };
    children = ("files", true) ∷ [];
    tool_defs = ("files", ("get", "g") ∷ ("put", "p") ∷ []) ∷ [];
    confirmations = [];
  });
  audit = in_memory;
  control = some own;
}

abbrev inputs : Inputs
inputs = record { now = 10; logged_at = 10; wall = 0; drawn = none }

abbrev answer : ControlResponse × Handler String Bool ℕ ℕ (List String)
answer = handle ext (control_handler started own) inputs (ControlRequest.revoke "files")

abbrev after : Served String Bool ℕ ℕ (List String)
after = record started {
  aggregator = answer.1.aggregator;
  audit = answer.1.audit;
  control = some (own_of answer.1);
}

-- After one more request of the MCP client.
abbrev later : Served String Bool ℕ ℕ (List String)
later = (mcp_request mcp_ext after "{}" 11 0).1

revoked : Unit {0}
unfolding handle revoke record_line same_snapshot exposure_snapshot resolve_exposure sort is_active
    until_revoked server update_slot server_mut record_event push_capped split_once call_in call
    mcp_handle handle_tools_call mcp_request control_request mcp_lock.Prelude.Decimal.decimal
revoked = tt

revoked_read_only_example :
    (tool : ClassifiedTool) × Memᴰ tool slot.tools × (tool.name ≡ "get") × (tool.class ≡ read)
unfolding revoked
revoked_read_only_example =
    revoked_read_only ext started after later inputs "files" answer.0 slot 20 "get" refl refl
      (asks mcp_ext "{}" 11 0 unasked) refl (Memᴰ.head refl)
