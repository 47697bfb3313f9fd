-- ===== src/Manifest/Validity.antt =====
-- Which manifests are valid.
use mcp_lock.Prelude.{
  ℕ, ◌+◌, ◌<◌, ◌⊎◌, map, ◌≤◌, String, ◌≡◌, refl, ◌≢◌, ◌↔◌, inl, inr, Bool, false, List, [], ◌∷◌,
  arith, All, any, length, ltb, ◌==◌, eq_string,
}
use text.Mathlib.TextEquality.{eq_iff}
use mcp_lock.Prelude.BTreeMap.{BTreeMap, keys}
use mcp_lock.Prelude.Bytes.{Bytes, as_bytes, len, is_blank, starts_with, to_ascii_uppercase}
use mcp_lock.Prelude.Bytes.Range.{IsByte, as_bytes-IsByte}
use mcp_lock.Prelude.Hex.{to_hex}
use mcp_lock.Prelude.Results.{Result, ok, ◌>>◌, reject_if, Result-cases}
use mcp_lock.Manifest.{
  ServerManifest, Manifest, LoadedManifest, load_from_bytes, max_manifest_bytes, max_servers,
  max_tools_per_server, max_env_per_server, max_args, max_id_len, max_name_len, max_command_len,
  max_value_len, bad_key_byte, ld_prefix, dyld_prefix, validate_env_key, validate_env,
  validate_server, validate_servers, validate,
}

-- A byte that a key may hold: it is above the space, it is neither '=' nor DEL, and it is not one of
-- 0x85 and 0xA0, which are white space as code points. As a key is looked at byte by byte, a letter
-- whose encoding holds one of these two bytes is refused as well.
pub record IsKeyByte (b : ℕ) : Type 0 where
  pub above : 0x20 < b
  pub not_equals : b ≢ 0x3d
  pub not_delete : b ≢ 0x7f
  pub not_next_line : b ≢ 0x85
  pub not_no_break_space : b ≢ 0xa0

-- The letter, of either case.
abbrev IsLetter : ℕ → ℕ → Type 0
IsLetter upper b = (b ≡ upper) ⊎ (b ≡ upper + 32)

-- "LD_" and what follows, in any case of the letters.
abbrev pub StartsLd : Bytes → Type 0
StartsLd (a ∷ b ∷ c ∷ bs) = IsLetter 76 a × IsLetter 68 b × (c ≡ 95)
StartsLd _ = ⊥

-- "DYLD_" and what follows, in any case of the letters.
abbrev pub StartsDyld : Bytes → Type 0
StartsDyld (a ∷ b ∷ bs) = IsLetter 68 a × IsLetter 89 b × StartsLd bs
StartsDyld _ = ⊥

-- An environment key whose bytes may all stand in one, and that no dynamic loader reads.
pub record IsEnvKey (key : String) : Type 0 where
  pub nonempty : key ≢ ""
  pub bounded : len key ≤ 256
  pub clean : All IsKeyByte (as_bytes key)
  pub not_ld : ¬ StartsLd (as_bytes key)
  pub not_dyld : ¬ StartsDyld (as_bytes key)

pub record IsEnvEntry (entry : String × String) : Type 0 where
  pub key : IsEnvKey entry.0
  pub value : len entry.1 ≤ max_value_len

pub record IsValidServer (s : ServerManifest) : Type 0 where
  pub id_shown : is_blank s.id ≡ false
  pub id_bounded : len s.id ≤ max_id_len
  pub command_shown : is_blank s.command ≡ false
  pub command_bounded : len s.command ≤ max_command_len
  pub few_args : length s.args ≤ max_args
  pub args_bounded : All (λ a. len a ≤ max_value_len) s.args
  pub few_tools : length s.tools ≤ max_tools_per_server
  pub names_bounded : All (λ t. len t ≤ max_name_len) (keys s.tools)
  pub few_env : length s.env ≤ max_env_per_server
  pub env : All IsEnvEntry s.env

-- No later server has the id of an earlier one.
abbrev pub Distinct : List ServerManifest → Type 0
Distinct [] = Unit
Distinct (s ∷ ss) = All (λ t. t.id ≢ s.id) ss × Distinct ss

pub record IsValid (m : Manifest) : Type 0 where
  pub few : length m.servers ≤ max_servers
  pub servers : All IsValidServer m.servers
  pub distinct : Distinct m.servers

any-eq-false :
    {A : Type 0} (p : A → Bool) (xs : List A) → (any p xs ≡ false) ↔ All (λ x. p x ≡ false) xs
any-eq-false p [] = ground arith
any-eq-false p (x ∷ xs) = ground (arith, any-eq-false p xs)

any-bounded :
    (bound : ℕ) (xs : List String)
    → (any (λ x. ltb bound (len x)) xs ≡ false) ↔ All (λ x. len x ≤ bound) xs
any-bounded bound [] = ground arith
any-bounded bound (x ∷ xs) = ground (arith, any-bounded bound xs)

reject_if-eq-ok :
    {A E : Type 0} (bad : Bool) (e : E) (k : Result A E) (v : A)
    → ((reject_if bad e >> k) ≡ ok v) ↔ ((bad ≡ false) × (k ≡ ok v))
reject_if-eq-ok bad e k v = ground arith

bad_key_byte_iff : (b : ℕ) → b < 256 → (bad_key_byte b ≡ false) ↔ IsKeyByte b
bad_key_byte_iff b h = ground arith

clean_iff : (bs : Bytes) → All IsByte bs → All (λ b. bad_key_byte b ≡ false) bs ↔ All IsKeyByte bs
clean_iff [] h = ground arith
clean_iff (b ∷ bs) h = ground (arith, bad_key_byte_iff b h.0, clean_iff bs h.1)

ld_iff :
    (bs : Bytes) → (starts_with (map to_ascii_uppercase bs) ld_prefix ≡ false) ↔ (¬ StartsLd bs)
ld_iff [] = ground arith
ld_iff (a ∷ []) = ground arith
ld_iff (a ∷ b ∷ []) = ground arith
ld_iff (a ∷ b ∷ c ∷ bs) = ground arith

dyld_iff :
    (bs : Bytes) → (starts_with (map to_ascii_uppercase bs) dyld_prefix ≡ false) ↔ (¬ StartsDyld bs)
dyld_iff [] = ground arith
dyld_iff (a ∷ []) = ground arith
dyld_iff (a ∷ b ∷ bs) = ground (arith, ld_iff bs)

validate_env_key-eq-ok :
    (server_id key : String) → (validate_env_key server_id key ≡ ok tt) ↔ IsEnvKey key
unfolding validate_env_key
validate_env_key-eq-ok server_id key = ground (
  arith,
  eq_iff key "",
  any-eq-false bad_key_byte (as_bytes key),
  clean_iff (as_bytes key) (as_bytes-IsByte key),
  ld_iff (as_bytes key),
  dyld_iff (as_bytes key),
)

validate_env-eq-ok :
    (server_id : String) (env : BTreeMap String)
    → (validate_env server_id env ≡ ok tt) ↔ All IsEnvEntry env
unfolding validate_env
validate_env-eq-ok server_id [] = ground arith
validate_env-eq-ok server_id ((key, value) ∷ rest) =
    ground (arith, validate_env_key-eq-ok server_id key, validate_env-eq-ok server_id rest)

validate_server-eq-ok : (s : ServerManifest) → (validate_server s ≡ ok tt) ↔ IsValidServer s
unfolding validate_server
validate_server-eq-ok s = ground (
  arith,
  any-bounded max_value_len s.args,
  any-bounded max_name_len (keys s.tools),
  validate_env-eq-ok s.id s.env,
)

-- None of the ids was seen.
abbrev Unseen : List String → List ServerManifest → Type 0
Unseen seen = All λ s. any (λ i. i == s.id) seen ≡ false

Unseen-cons :
    (i : String) (seen : List String) (ss : List ServerManifest)
    → Unseen (i ∷ seen) ss ↔ (All (λ t. t.id ≢ i) ss × Unseen seen ss)
Unseen-cons i seen [] = ground arith
Unseen-cons i seen (s ∷ ss) = ground (arith, eq_iff i s.id, Unseen-cons i seen ss)

Unseen-nil : (ss : List ServerManifest) → Unseen [] ss
Unseen-nil [] = tt
Unseen-nil (s ∷ ss) = (refl, Unseen-nil ss)

validate_servers-eq-ok :
    (seen : List String) (ss : List ServerManifest)
    → (validate_servers seen ss ≡ ok tt) ↔ (All IsValidServer ss × Distinct ss × Unseen seen ss)
unfolding validate_servers
validate_servers-eq-ok seen [] = ground arith
validate_servers-eq-ok seen (s ∷ ss) = ground (
  arith,
  validate_server-eq-ok s,
  Unseen-cons s.id seen ss,
  validate_servers-eq-ok (s.id ∷ seen) ss,
)

-- A manifest passes the validation exactly when it is within every bound, its ids and commands are
-- not blank, its ids are distinct, and its environment keys are not empty, hold no '=', no DEL and no
-- byte that is a control or a white space as a code point (so 0x85 and 0xA0 neither, which occur in
-- the encoding of letters), and do not start with "LD_" or "DYLD_" in any case.
pub validate-eq-ok_iff : (m : Manifest) → (validate m ≡ ok tt) ↔ IsValid m
unfolding validate
validate-eq-ok_iff m = ground (arith, validate_servers-eq-ok [] m.servers, Unseen-nil m.servers)

-- What is loaded is what the parser gives for these bytes, if it is valid, and bears their digest;
-- too large an input, a parse error or an invalid manifest loads nothing.
pub load_from_bytes-eq-ok_iff :
    (digest : Bytes → Bytes) (from_slice : Bytes → Result Manifest String) (bytes : Bytes)
    (l : LoadedManifest)
    → (load_from_bytes digest from_slice bytes ≡ ok l) ↔ (
        (length bytes ≤ max_manifest_bytes)
        × (from_slice bytes ≡ ok l.manifest)
        × IsValid l.manifest
        × (l.integrity_sha256 ≡ to_hex (digest bytes)))
unfolding load_from_bytes
load_from_bytes-eq-ok_iff digest from_slice bytes l = elim (Result-cases (from_slice bytes)) [
  | inr (e, bad) ↦ ground arith
  | inl (m, parsed) ↦ ground (arith, validate-eq-ok_iff m, validate-eq-ok_iff l.manifest)
]
