-- ===== src/Manifest.antt =====
-- crates/core/src/manifest.rs: the operator's manifest, its tool classes and its validation.
-- The JSON parser and SHA-256 are parameters. The message of an error is kept as a constructor.
pub mod Validity
mod Tests
use mcp_lock.Prelude.{
  ℕ, ◌^◌, String, Bool, true, false, not, ◌||◌, Option, some, List, [], ◌∷◌, map, ltb, nat_eq, ◌==◌,
  eq_string, any, find, length,
}
use mcp_lock.Prelude.BTreeMap.{BTreeMap, keys}
use mcp_lock.Prelude.Bytes.{
  Bytes, as_bytes, len, is_blank, is_whitespace, is_ascii_control, to_ascii_uppercase, starts_with,
}
use mcp_lock.Prelude.Hex.{to_hex}
use mcp_lock.Prelude.Results.{◌>>=◌, Result, ok, err, ◌>>◌, reject_if, map_err}

pub data ToolClass : Type 0 where
  read write confirm : ToolClass

abbrev pub is_read : ToolClass → Bool
is_read read = true
is_read write = false
is_read confirm = false

abbrev pub requires_elevation : ToolClass → Bool
requires_elevation c = not (is_read c)

abbrev pub requires_per_action_presence : ToolClass → Bool
requires_per_action_presence read = false
requires_per_action_presence write = false
requires_per_action_presence confirm = true

pub record ServerManifest : Type 0 where
  pub id : String
  pub command : String
  pub args : List String
  pub env : BTreeMap String
  pub tools : BTreeMap ToolClass

pub record Manifest : Type 0 where
  pub servers : List ServerManifest

abbrev pub max_manifest_bytes : ℕ
max_manifest_bytes = 2 ^ 20

abbrev pub max_servers : ℕ
max_servers = 256

abbrev pub max_tools_per_server : ℕ
max_tools_per_server = 1024

abbrev pub max_env_per_server : ℕ
max_env_per_server = 256

abbrev pub max_args : ℕ
max_args = 256

abbrev pub max_id_len : ℕ
max_id_len = 128

abbrev pub max_name_len : ℕ
max_name_len = 128

abbrev pub max_command_len : ℕ
max_command_len = 4096

abbrev pub max_value_len : ℕ
max_value_len = 8192

abbrev pub max_env_key_len : ℕ
max_env_key_len = 256

-- Why a manifest is invalid; the text names the server, where the message does.
pub data Reason : Type 0 where
  too_large : ℕ → Reason
  too_many_servers empty_id : Reason
  id_too_long empty_command command_too_long too_many_args arg_too_long : String → Reason
  too_many_tools tool_name_too_long too_many_env duplicate_id : String → Reason
  env_key_empty env_key_too_long env_key_malformed env_key_loader : String → String → Reason
  env_value_too_long : String → String → Reason

pub data ManifestError : Type 0 where
  io : String → ManifestError
  parse : String → ManifestError
  invalid : Reason → ManifestError

-- A byte that an environment key may not hold. `b as char` is the code point of that number.
abbrev pub bad_key_byte : ℕ → Bool
bad_key_byte b = nat_eq b b'=' || nat_eq b 0 || is_whitespace b || is_ascii_control b

-- "LD_" and "DYLD_".
abbrev pub ld_prefix : Bytes
ld_prefix = b'L' ∷ b'D' ∷ b'_' ∷ []

abbrev pub dyld_prefix : Bytes
dyld_prefix = b'D' ∷ b'Y' ∷ b'L' ∷ b'D' ∷ b'_' ∷ []

abbrev pub is_loader_key : String → Bool
is_loader_key key =
    let upper = map to_ascii_uppercase (as_bytes key) in
    starts_with upper ld_prefix || starts_with upper dyld_prefix

unfoldable pub validate_env_key : String → String → Result (Unit {0}) Reason
validate_env_key server_id key = do
  reject_if (key == "") (env_key_empty server_id key)
  reject_if (ltb max_env_key_len (len key)) (env_key_too_long server_id key)
  reject_if (any bad_key_byte (as_bytes key)) (env_key_malformed server_id key)
  reject_if (is_loader_key key) (env_key_loader server_id key)

unfoldable pub validate_env : String → BTreeMap String → Result (Unit {0}) Reason
validate_env server_id [] = ok tt
validate_env server_id ((key, value) ∷ rest) = do
  validate_env_key server_id key
  reject_if (ltb max_value_len (len value)) (env_value_too_long server_id key)
  validate_env server_id rest

-- The body of the loop over the servers, without the set of the ids seen.
unfoldable pub validate_server : ServerManifest → Result (Unit {0}) Reason
validate_server s = do
  reject_if (is_blank s.id) empty_id
  reject_if (ltb max_id_len (len s.id)) (id_too_long s.id)
  reject_if (is_blank s.command) (empty_command s.id)
  reject_if (ltb max_command_len (len s.command)) (command_too_long s.id)
  reject_if (ltb max_args (length s.args)) (too_many_args s.id)
  reject_if (any (λ a. ltb max_value_len (len a)) s.args) (arg_too_long s.id)
  reject_if (ltb max_tools_per_server (length s.tools)) (too_many_tools s.id)
  reject_if (any (λ t. ltb max_name_len (len t)) (keys s.tools)) (tool_name_too_long s.id)
  reject_if (ltb max_env_per_server (length s.env)) (too_many_env s.id)
  validate_env s.id s.env

unfoldable pub validate_servers : List String → List ServerManifest → Result (Unit {0}) Reason
validate_servers seen [] = ok tt
validate_servers seen (s ∷ rest) = do
  validate_server s
  reject_if (any (λ i. i == s.id) seen) (duplicate_id s.id)
  validate_servers (s.id ∷ seen) rest

unfoldable pub validate : Manifest → Result (Unit {0}) Reason
validate m = do
  reject_if (ltb max_servers (length m.servers)) too_many_servers
  validate_servers [] m.servers

unfoldable pub server : Manifest → String → Option ServerManifest
server m id = find (λ s. s.id == id) m.servers

pub record LoadedManifest : Type 0 where
  pub manifest : Manifest
  pub integrity_sha256 : String

-- `digest` is SHA-256.
abbrev pub sha256_hex : (Bytes → Bytes) → Bytes → String
sha256_hex digest bytes = to_hex (digest bytes)

-- `from_slice` is serde_json's parser at this schema, with the text of its error.
unfoldable pub load_from_bytes :
    (Bytes → Bytes) → (Bytes → Result Manifest String) → Bytes → Result LoadedManifest ManifestError
load_from_bytes digest from_slice bytes = do
  reject_if (ltb max_manifest_bytes (length bytes)) (invalid (too_large (length bytes)))
  manifest ← map_err parse (from_slice bytes)
  map_err invalid (validate manifest)
  ok (record { manifest = manifest; integrity_sha256 = sha256_hex digest bytes })

unfoldable pub propose_from_hint : Option Bool → ToolClass
propose_from_hint (some true) = read
propose_from_hint _ = write
