-- ===== src/Daemon/Tests.antt =====
-- Tests of the start, and its theorems at concrete inputs.
use mcp_lock.Prelude.{
  ℕ, suc, String, ◌≡◌, refl, ◌↔◌, Bool, true, Option, none, some, List, [], ◌∷◌, All, arith, ◌==◌,
  eq_string, if◌then◌else◌,
}
use text.Mathlib.TextEquality.{eq_iff}
use mcp_lock.Prelude.Bytes.{Bytes, as_bytes, len, is_blank}
use mcp_lock.Prelude.Decimal.{decimal}
use mcp_lock.Prelude.Hex.{to_hex, from_hex}
use mcp_lock.Prelude.Results.{ok, err}
use mcp_lock.Manifest.{
  read, ServerManifest, LoadedManifest, validate_env_key, validate_env, validate_server,
  validate_servers, validate, load_from_bytes,
}
use mcp_lock.Policy.{classify}
use mcp_lock.Broker.{from_manifest, elevation_count}
use mcp_lock.Elevation.Store.{register}
use mcp_lock.Auth.{new}
use mcp_lock.Child.{McpChild}
use mcp_lock.Aggregator.Build.{build, build_servers, spawn_and_classify}
use mcp_lock.Daemon.{
  System, Served, no_token, decode_pubkey, register_clients, load_registry, load_audit,
  load_from_path, start_control_channel, serve, check_manifest,
}
use mcp_lock.Daemon.Args.{Command, usage_error, parse_command}
use mcp_lock.Daemon.Closed.{IsClosed, serve-IsClosed}
use mcp_lock.Daemon.Starts.{CanServe, serve-eq-ok_iff}

abbrev ops : McpChild String Bool ℕ
ops = record {
  list_tools = λ c. (ok (record { name = "put"; definition = "p" } ∷ []), c);
  call_tool = λ c tool v. (ok v, c);
  is_alive = λ c. (c, c);
  spawn = λ n s. (ok true, suc n);
}

abbrev files : ServerManifest
files = record { id = "files"; command = "f"; args = []; env = []; tools = ("get", read) ∷ [] }

abbrev five : String
five = "0500000000000000000000000000000000000000000000000000000000000000"

abbrev first_byte : Bytes → Option ℕ
first_byte [] = none
first_byte (b ∷ bs) = some b

abbrev system : String → System String Bool ℕ ℕ (List String)
system token = record {
  var = λ name.
      if name == "MCPLOCK_BEARER_TOKEN"
      then some token
      else if name == "MCPLOCK_CLIENTS"
      then some "clients.json"
      else none;
  read_file = λ path. if path == "clients.json" then ok (1 ∷ []) else ok (2 ∷ 3 ∷ []);
  open_log = λ path. err "denied";
  bind = λ listen. ok tt;
  bind_control = ok tt;
  digest = λ bytes. 171 ∷ [];
  parse_manifest = λ bytes. ok (record { servers = files ∷ [] });
  parse_clients = λ bytes. ok (("bad", "05") ∷ ("operator", five) ∷ []);
  from_bytes = first_byte;
  children = ops;
}

abbrev loaded : LoadedManifest
loaded = record { manifest = record { servers = files ∷ [] }; integrity_sha256 = "ab" }

start : Unit {0}
unfolding validate validate_servers validate_server validate_env validate_env_key as_bytes len
    is_blank load_from_bytes to_hex from_hex decimal register new build build_servers
    spawn_and_classify from_manifest elevation_count decode_pubkey register_clients load_registry
    load_audit load_from_path start_control_channel serve check_manifest parse_command
    mcp_lock.Prelude.Hex.to_digit mcp_lock.Policy.resolve_exposure mcp_lock.Prelude.Text.sort
    mcp_lock.Policy.classify_advertised mcp_lock.Prelude.Text.contains
start = tt

skipped : load_registry (system "") ≡ (
  record { keys = ("operator", 5) ∷ [] },
  "mcp-lockd: client 'bad' public key is not 32-byte hex; skipped" ∷ [],
)
unfolding start
skipped = refl

unset : serve (system "") "m.json" 0 0 ≡ err no_token
unfolding start
unset = refl

reported :
    check_manifest (system "") "m.json"
    ≡ ok (
        "manifest: m.json" ∷ "integrity (sha256): ab" ∷ "cold start: 1 server(s), 0 elevation(s)"
        ∷ "  [files] read-only exposure: get" ∷ [])
unfolding start
reported = refl

serving : parse_command ("serve" ∷ "--manifest" ∷ "m.json" ∷ []) ≡ Command.serve "m.json"
unfolding start
serving = refl

pathless :
    parse_command ("serve" ∷ "--manifest" ∷ [])
    ≡ usage_error "mcp-lockd: serve --manifest requires a path"
unfolding start
pathless = refl

can_serve : CanServe (system "t") "m.json" 0 0
unfolding start
can_serve = record {
  loaded = loaded;
  loads = refl;
  token = λ e. ground (arith, e, eq_iff "t" "");
  routable = (refl, tt);
  binds = refl;
}

serve-eq-ok_iff_example :
    ((s : Served String Bool ℕ ℕ (List String)) × (serve (system "t") "m.json" 0 0 ≡ ok s))
    ↔ CanServe (system "t") "m.json" 0 0
serve-eq-ok_iff_example = serve-eq-ok_iff (system "t") "m.json" 0 0

abbrev started : Served String Bool ℕ ℕ (List String)
started = (serve-eq-ok_iff_example.1 can_serve).0

serve-IsClosed_example : IsClosed (system "t") "m.json" 0 0 started
serve-IsClosed_example =
    serve-IsClosed (system "t") "m.json" 0 0 started (serve-eq-ok_iff_example.1 can_serve).1
