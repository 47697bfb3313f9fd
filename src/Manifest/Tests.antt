-- ===== src/Manifest/Tests.antt =====
-- Tests of the validation, and its theorems at concrete inputs.
use mcp_lock.Prelude.{String, ◌≡◌, refl, ◌↔◌, false, some, List, [], ◌∷◌}
use mcp_lock.Prelude.Bytes.{as_bytes, len, is_blank}
use mcp_lock.Prelude.Hex.{to_hex}
use mcp_lock.Prelude.Results.{ok, err}
use mcp_lock.Manifest.{
  read, write, ServerManifest, Manifest, duplicate_id, empty_id, env_key_loader, env_key_malformed,
  validate_env_key, validate_env, validate_server, validate_servers, validate, load_from_bytes,
  propose_from_hint,
}
use mcp_lock.Manifest.Validity.{IsValid, validate-eq-ok_iff}

abbrev with_env : String → String → ServerManifest
with_env id key = record {
  id = id;
  command = "c";
  args = "--x" ∷ [];
  env = (key, "v") ∷ [];
  tools = ("t", read) ∷ [];
}

abbrev of_servers : List ServerManifest → Manifest
of_servers servers = record { servers = servers }

manifest : Unit {0}
unfolding validate validate_servers validate_server validate_env validate_env_key as_bytes len
    is_blank load_from_bytes to_hex propose_from_hint
manifest = tt

accepted : validate (of_servers (with_env "mail" "HOME" ∷ with_env "files" "PATH" ∷ [])) ≡ ok tt
unfolding manifest
accepted = refl

duplicated :
    validate (of_servers (with_env "mail" "HOME" ∷ with_env "mail" "PATH" ∷ []))
    ≡ err (duplicate_id "mail")
unfolding manifest
duplicated = refl

blank : validate (of_servers (with_env " " "HOME" ∷ [])) ≡ err empty_id
unfolding manifest
blank = refl

loader :
    validate (of_servers (with_env "mail" "ld_preload" ∷ []))
    ≡ err (env_key_loader "mail" "ld_preload")
unfolding manifest
loader = refl

-- The test of a key looks at its bytes as if each was a character, and 0xA0, the second byte of this
-- letter, is white space as one.
accented : validate_env_key "mail" "à" ≡ err (env_key_malformed "mail" "à")
unfolding manifest
accented = refl

hinted : propose_from_hint (some false) ≡ write
unfolding manifest
hinted = refl

abbrev one : Manifest
one = of_servers (with_env "mail" "HOME" ∷ [])

validate-eq-ok_iff_example : (validate one ≡ ok tt) ↔ IsValid one
validate-eq-ok_iff_example = validate-eq-ok_iff one
