-- ===== src/Cli/Args.antt =====
-- crates/cli/src/main.rs: the arguments and the identity. `lookup` reads the environment.
use mcp_lock.Prelude.{
  ℕ, String, Bool, true, false, Option, none, some, List, [], ◌∷◌, ◌==◌, eq_string, u64_max,
  if◌then◌else◌,
}
use mcp_lock.Prelude.Bytes.{Bytes}
use mcp_lock.Prelude.Decimal.{parse_unsigned}
use mcp_lock.Prelude.Hex.{from_hex}
use mcp_lock.Prelude.Results.{Result, ok, err, ◌>>=◌, ok_or}
use mcp_lock.Prelude.Text.{◌+++◌}
use mcp_lock.Elevation.Challenge.{RequestedMode, duration, until_revoked}
use mcp_lock.Control.Data.{ControlRequest}

abbrev pub client_env : String
client_env = "MCPLOCK_CLIENT_ID"

abbrev pub key_env : String
key_env = "MCPLOCK_SIGNING_KEY"

abbrev pub default_client : String
default_client = "operator"

abbrev pub default_ttl_secs : ℕ
default_ttl_secs = 300

-- `args.get(0)`, of the arguments after the command.
abbrev pub first : List String → Option String
first [] = none
first (a ∷ args) = some a

abbrev id_of : String → List String → Result String String
id_of command args = ok_or (first args) ("`" +++ (command +++ "` requires a server id"))

abbrev with_id : (String → ControlRequest) → Result String String → Result ControlRequest String
with_id request (ok id) = ok (request id)
with_id request (err e) = err e

abbrev limit_of : Option ℕ → Result ControlRequest String
limit_of none = err "logs <N>: N must be a number"
limit_of (some n) = ok (ControlRequest.logs (some n))

abbrev logs_of : Option String → Result ControlRequest String
logs_of none = ok (ControlRequest.logs none)
logs_of (some n) = limit_of (parse_unsigned u64_max n)

-- A command, and the arguments after it.
unfoldable pub parse_simple : String → List String → Result ControlRequest String
parse_simple command args =
    if command == "status"
    then ok ControlRequest.status
    else if command == "list"
    then ok ControlRequest.list
    else if command == "logs"
    then logs_of (first args)
    else if command == "start"
    then with_id ControlRequest.start (id_of command args)
    else if command == "stop"
    then with_id ControlRequest.stop (id_of command args)
    else if command == "pause"
    then with_id ControlRequest.pause (id_of command args)
    else if command == "resume"
    then with_id ControlRequest.resume (id_of command args)
    else if command == "revoke"
    then with_id ControlRequest.revoke (id_of command args)
    else err ("unknown command '" +++ (command +++ "'"))

pub data Flag : Type 0 where
  until_flag ttl_flag : Flag
  unknown : String → Flag

abbrev flag_of : String → Flag
flag_of f =
    if f == "--until-revoked" then until_flag else if f == "--ttl" then ttl_flag else unknown f

abbrev mode_for : Bool → ℕ → RequestedMode
mode_for true ttl = until_revoked
mode_for false ttl = duration ttl

abbrev with_ttl : Option ℕ → (ℕ → Result RequestedMode String) → Result RequestedMode String
with_ttl none k = err "--ttl must be a number"
with_ttl (some ttl) k = k ttl

-- The loop over the flags. The first Boolean is set while `--ttl` waits for its number.
unfoldable pub parse_flags : Bool → List String → Bool → ℕ → Result RequestedMode String
parse_flags true [] until ttl = err "--ttl requires a number of seconds"
parse_flags true (v ∷ flags) until ttl =
    with_ttl (parse_unsigned u64_max v) (parse_flags false flags until)
parse_flags false [] until ttl = ok (mode_for until ttl)
parse_flags false (f ∷ flags) until ttl = elim (flag_of f) [
  | until_flag ↦ parse_flags false flags true ttl
  | ttl_flag ↦ parse_flags true flags until ttl
  | unknown other ↦ err ("unknown flag '" +++ (other +++ "'"))
]

unfoldable pub parse_mode : List String → Result RequestedMode String
unfolding parse_flags
parse_mode flags = parse_flags false flags false default_ttl_secs

unfoldable pub decode_32 : String → Option Bytes
decode_32 hex = from_hex 32 hex

abbrev or_default : Option String → String
or_default none = default_client
or_default (some c) = c

-- `from_bytes` is ed25519_dalek's `SigningKey::from_bytes`.
unfoldable pub load_identity :
    {SigningKey : Type 0}
    → (Bytes → SigningKey)
    → (String → Option String)
    → Result (String × SigningKey) String
unfolding decode_32
load_identity from_bytes lookup = do
  hex ← ok_or (lookup key_env) (
      key_env
      +++ (" is not set. Elevation needs a signing key; set "
          +++ (key_env
              +++ " to a hex 32-byte seed (dev path). Presence-gated Keychain signing is a follow-up.")))
  seed ← ok_or (decode_32 hex) (key_env +++ " must be a 64-character hex (32-byte) seed")
  ok (or_default (lookup client_env), from_bytes seed)
