-- ===== src/Cli/Tests.antt =====
-- Tests of the command line, and its theorem at a concrete input. The broker, the keys and the messages
-- are those of a test: a signature is 64 bytes of which the first is the key, and a line is the message
-- itself.
use mcp_lock.Prelude.{
  arith, ℕ, zero, suc, String, ◌≡◌, refl, ◌⊎◌, inl, inr, Bool, true, false, Option, none, some,
  List, [], ◌∷◌, list_eq, nat_eq, ◌==◌, eq_string, All, length, if◌then◌else◌,
}
use mcp_lock.Prelude.Bytes.{Bytes, as_bytes, len}
use mcp_lock.Prelude.Decimal.{decimal, parse_unsigned}
use mcp_lock.Prelude.Hex.{to_hex, from_hex}
use mcp_lock.Prelude.Results.{ok, err}
use mcp_lock.Prelude.Sync.{new_mutex}
use mcp_lock.Manifest.{write, ServerManifest}
use mcp_lock.Policy.{running}
use mcp_lock.Broker.{ServerSlot, server}
use mcp_lock.Elevation.Challenge.{Nonce, duration, until_revoked, nonce_from_hex}
use mcp_lock.Elevation.Store.{new_store}
use mcp_lock.Audit.{in_memory}
use mcp_lock.Child.{McpChild}
use mcp_lock.Control.Data.{ControlRequest, ControlResponse, Externals, Inputs, Handler}
use mcp_lock.Control.Channel.{Served, Wire, IsFaithful}
use mcp_lock.Cli.Args.{parse_simple, parse_flags, parse_mode, decode_32, load_identity}
use mcp_lock.Cli.Output.{Exit, pad, status_line, print_response}
use mcp_lock.Cli.Session.{elevate}
use mcp_lock.Cli.Callable.{granted_call}
use mcp_lock.Policy.Grant.{is_active}
use mcp_lock.Aggregator.Calls.{call}
use mcp_lock.Cli.Signed.{cli}
use mcp_lock.Cli.Elevates.{Elevated, elevate-Elevated}

abbrev pub ops : McpChild String Bool ℕ
ops = record {
  list_tools = λ c. (ok [], c);
  call_tool = λ c tool v. (ok v, c);
  is_alive = λ c. (c, c);
  spawn = λ n s. (ok true, suc n);
}

abbrev verify_key : ℕ → Bytes → Bytes → Bool
verify_key k message [] = false
verify_key k message (b ∷ bs) = nat_eq b k

abbrev pub ext : Externals String Bool ℕ ℕ (List String)
ext = record {
  children = ops;
  objects = record { as_object = λ v. none; of_object = λ es. ""; string = λ s. s };
  name_of = some;
  verify_strict = verify_key;
  to_vec = λ d. [];
  append = λ f line. line ∷ f;
  to_string = λ ts e. none;
}

abbrev pub files : ServerManifest
files = record { id = "files"; command = "f"; args = []; env = []; tools = ("put", write) ∷ [] }

abbrev slot : ServerSlot
slot = record {
  id = "files";
  tools = record { name = "put"; class = write } ∷ [];
  state = running;
  elevation = none;
}

abbrev pub handler : Handler String Bool ℕ ℕ (List String)
handler = record {
  aggregator = new_mutex (record {
    manifest = record { manifest = record { servers = files ∷ [] }; integrity_sha256 = "" };
    spawner = 0;
    state = record { servers = slot ∷ [] };
    children = ("files", true) ∷ [];
    tool_defs = ("files", ("put", "p") ∷ []) ∷ [];
    confirmations = [];
  });
  notified = 0;
  nonces = new_mutex new_store;
  registry = record { keys = ("operator", 5) ∷ [] };
  audit = in_memory;
  log = new_mutex [];
}

abbrev repeat_byte : ℕ → ℕ → Bytes
repeat_byte zero b = []
repeat_byte (suc n) b = b ∷ repeat_byte n b

abbrev pub drawn : Nonce
drawn = repeat_byte 32 171

abbrev pub asked : Inputs
asked = record { now = 10; logged_at = 10; wall = 0; drawn = some drawn }

abbrev pub signed : Inputs
signed = record { now = 40; logged_at = 40; wall = 0; drawn = none }

abbrev pub wire : Wire (ControlRequest ⊎ ControlResponse)
wire = record {
  print_request = λ r. some (inl r);
  parse_request = λ l. elim l [ inl r ↦ ok r | inr r ↦ err "response" ];
  print_response = λ r. some (inr r);
  parse_response = λ l. elim l [ inl r ↦ err "request" | inr r ↦ ok r ];
}

pub wire-IsFaithful : IsFaithful wire
wire-IsFaithful = record {
  reads_request = λ r. (inl r, refl, refl);
  reads_response = λ r. (inr r, refl, refl);
}

abbrev pub sign : ℕ → Bytes → Bytes
sign k message = k ∷ repeat_byte 63 0

-- The key is the first byte of the seed.
abbrev pub first_byte : Bytes → ℕ
first_byte [] = 0
first_byte (b ∷ bs) = b

abbrev pub lookup : String → Option String
lookup name =
    if name == "MCPLOCK_SIGNING_KEY"
    then some "0500000000000000000000000000000000000000000000000000000000000000"
    else none

command : Unit {0}
unfolding parse_simple parse_flags parse_mode decode_32 load_identity pad status_line print_response
    as_bytes len decimal parse_unsigned to_hex from_hex nonce_from_hex server
    mcp_lock.Prelude.Hex.to_digit
command = tt

five_minutes : parse_mode [] ≡ ok (duration 300)
unfolding command
five_minutes = refl

until_wins : parse_mode ("--until-revoked" ∷ "--ttl" ∷ "60" ∷ []) ≡ ok until_revoked
unfolding command
until_wins = refl

no_number : parse_mode ("--ttl" ∷ []) ≡ err "--ttl requires a number of seconds"
unfolding command
no_number = refl

last_lines : parse_simple "logs" ("5" ∷ []) ≡ ok (ControlRequest.logs (some 5))
unfolding command
last_lines = refl

pub identity : load_identity first_byte lookup ≡ ok ("operator", 5)
unfolding command
identity = refl

one_minute : parse_mode ("--ttl" ∷ "60" ∷ []) ≡ ok (duration 60)
unfolding command
one_minute = refl

supervised : server handler.aggregator.value.state "files" ≡ some slot
unfolding command
supervised = refl

abbrev ran : Exit × Served String Bool ℕ ℕ (List String)
ran =
    elevate (cli ext wire sign first_byte lookup "sock")
      (record { handler = handler; inputs = asked ∷ signed ∷ [] }) ("files" ∷ "--ttl" ∷ "60" ∷ [])

elevate-Elevated_example :
    Elevated ran handler.aggregator.value.children "files" slot (duration 60) 40
elevate-Elevated_example =
    elevate-Elevated ext wire sign first_byte lookup "sock" handler asked signed "files" "operator"
      ("--ttl" ∷ "60" ∷ []) (duration 60) 5 5 drawn slot wire-IsFaithful one_minute identity refl
      (λ m. (refl, refl, omega arith)) refl refl supervised refl
      (record { sized = refl; bytes = omega arith }) refl (omega arith) (omega arith)

-- The same, for the calls that follow.
ran-Elevated : Elevated ran handler.aggregator.value.children "files" slot (duration 60) 40
ran-Elevated =
    elevate-Elevated ext wire sign first_byte lookup "sock" handler asked signed "files" "operator"
      ("--ttl" ∷ "60" ∷ []) (duration 60) 5 5 drawn slot wire-IsFaithful one_minute identity refl
      (λ m. (refl, refl, omega arith)) refl refl supervised refl
      (record { sized = refl; bytes = omega arith }) refl (omega arith) (omega arith)

granted_call_example : (call ops ran.1.handler.aggregator.value "files.put" "x" 99).0 ≡ ok "x"
unfolding command is_active mcp_lock.Prelude.Text.contains mcp_lock.Policy.Grant.for_duration
granted_call_example =
    granted_call ops ran handler.aggregator.value.children "files" slot (duration 60) 40 99 "put"
      (record { name = "put"; class = write }) true "x" "x" ran-Elevated refl refl refl refl refl
      refl refl
