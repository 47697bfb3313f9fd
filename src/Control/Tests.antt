-- ===== src/Control/Tests.antt =====
-- Tests of the control channel, and its theorems at concrete inputs. The children, keys and messages
-- are those of a test: a signature is 64 bytes of which the first is the key.
use mcp_lock.Prelude.{
  ℕ, zero, suc, String, ◌≡◌, refl, Bool, true, false, none, some, List, [], ◌∷◌, swap_remove,
  list_eq, nat_eq,
}
use mcp_lock.Prelude.Bytes.{Bytes, as_bytes, len}
use mcp_lock.Prelude.Decimal.{decimal}
use mcp_lock.Prelude.Hex.{to_hex, from_hex, to_digit}
use mcp_lock.Prelude.Ring.{push_capped}
use mcp_lock.Prelude.Results.{ok}
use mcp_lock.Prelude.Sync.{new_mutex}
use mcp_lock.Prelude.Text.{sort}
use mcp_lock.Manifest.{write, ServerManifest, server as manifest_server}
use mcp_lock.Policy.{resolve_exposure, running}
use mcp_lock.Policy.Grant.{for_duration, is_active, mode}
use mcp_lock.Broker.{ServerSlot, server, update_slot, server_mut, exposure_snapshot}
use mcp_lock.Elevation.Challenge.{Nonce, nonce_from_hex, challenge_message, outcome}
use mcp_lock.Elevation.Store.{new_store, issue as issue_nonce, check_pending, verify_and_consume}
use mcp_lock.Audit.{in_memory, record_event, recent}
use mcp_lock.Child.{McpChild}
use mcp_lock.Aggregator.Lifecycle.{set_state, stop, start}
use mcp_lock.Control.Data.{ControlRequest, ControlResponse, Externals, Inputs, Handler, record_line}
use mcp_lock.Control.Observe.{status, list, logs}
use mcp_lock.Control.Commands.{lifecycle, same_snapshot}
use mcp_lock.Control.Grants.{apply_elevation, apply_confirm, revoke}
use mcp_lock.Control.Presence.{issue, submit, decode_hex, decode_pairs, requested_mode}
use mcp_lock.Control.Handle.{handle}
use mcp_lock.Control.Authority.{held}
use mcp_lock.Control.OnlySigned.{Outcome, IsGrant, handle-Outcome}

abbrev ops : McpChild String Bool ℕ
ops = record {
  list_tools = λ c. (ok [], c);
  call_tool = λ c tool v. (ok v, c);
  is_alive = λ c. (c, c);
  spawn = λ n s. (ok true, suc n);
}

abbrev verify_key : ℕ → Bytes → Bytes → Bool
verify_key k message [] = false
verify_key k message (b ∷ bs) = nat_eq b k

abbrev ext : Externals String Bool ℕ ℕ (List String)
ext = record {
  children = ops;
  objects = record { as_object = λ v. none; of_object = λ es. ""; string = λ s. s };
  name_of = some;
  verify_strict = verify_key;
  to_vec = λ d. [];
  append = λ f line. line ∷ f;
  to_string = λ ts e. none;
}

abbrev files : ServerManifest
files = record { id = "files"; command = "f"; args = []; env = []; tools = ("put", write) ∷ [] }

abbrev slot : ServerSlot
slot = record {
  id = "files";
  tools = record { name = "put"; class = write } ∷ [];
  state = running;
  elevation = none;
}

abbrev handler : Handler String Bool ℕ ℕ (List String)
handler = record {
  aggregator = new_mutex (record {
    manifest = record { manifest = record { servers = files ∷ [] }; integrity_sha256 = "" };
    spawner = 0;
    state = record { servers = slot ∷ [] };
    children = ("files", true) ∷ [];
    tool_defs = ("files", ("put", "p") ∷ []) ∷ [];
    confirmations = [];
  });
  notified = 0;
  nonces = new_mutex new_store;
  registry = record { keys = ("client", 5) ∷ [] };
  audit = in_memory;
  log = new_mutex [];
}

abbrev repeat_byte : ℕ → ℕ → Bytes
repeat_byte zero b = []
repeat_byte (suc n) b = b ∷ repeat_byte n b

abbrev drawn : Nonce
drawn = repeat_byte 32 171

abbrev inputs : Inputs
inputs = record { now = 10; logged_at = 10; wall = 0; drawn = some drawn }

abbrev ask_elevation : ControlRequest
ask_elevation = ControlRequest.request_elevation "client" "files" "duration" (some 60)

control : Unit {0}
unfolding handle lifecycle issue submit apply_elevation apply_confirm revoke record_line decode_hex
    decode_pairs requested_mode same_snapshot exposure_snapshot nonce_from_hex from_hex to_hex
    as_bytes len to_digit issue_nonce check_pending verify_and_consume list_eq swap_remove outcome
    for_duration mode is_active resolve_exposure sort server update_slot server_mut set_state stop
    start manifest_server record_event push_capped decimal status list logs recent challenge_message
control = tt

nonce_given : (handle ext handler inputs ask_elevation).0 ≡ ControlResponse.nonce (to_hex drawn)
unfolding control
nonce_given = refl

abbrev signed : ControlRequest
signed = ControlRequest.submit_elevation "client" (to_hex drawn) (to_hex (5 ∷ repeat_byte 63 0))

abbrev elevated : Handler String Bool ℕ ℕ (List String)
elevated = (handle ext (handle ext handler inputs ask_elevation).1 inputs signed).1

elevated_now : held elevated "files" ≡ some (for_duration 10 60)
unfolding control
elevated_now = refl

one_notification : elevated.notified ≡ 1
unfolding control
one_notification = refl

replayed :
    (handle ext elevated inputs signed).0
    ≡ ControlResponse.error "verification rejected: unknown or already-used nonce"
unfolding control
replayed = refl

handle-Outcome_example :
    Outcome
      (λ e. IsGrant ext (handle ext handler inputs ask_elevation).1 inputs "files" e signed)
      (held (handle ext handler inputs ask_elevation).1 "files")
      (held elevated "files")
handle-Outcome_example =
    handle-Outcome ext (handle ext handler inputs ask_elevation).1 inputs "files" signed
