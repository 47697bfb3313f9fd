-- ===== src/Auth/Tokens.antt =====
-- Which tokens are accepted.
use Prim.Native.Nat.{bit_or, bit_xor}
use mcp_lock.Prelude.{
  ℕ, ◌<◌, String, ◌≡◌, ◌≢◌, sym, ◌∙◌, ◌↔◌, inl, inr, true, none, some, [], ◌∷◌, arith, nat_eq,
  length, All, Bool-cases,
}
use text.Mathlib.TextEquality.{eq_iff}
use mcp_lock.Prelude.Bytes.{Bytes, as_bytes}
use mcp_lock.Prelude.Results.{ok, err}
use mcp_lock.Prelude.Bytes.Range.{IsByte, as_bytes-IsByte, as_bytes-eq-nil, as_bytes_of_empty}
use mcp_lock.Auth.{
  ValidatedClient, missing, StaticBearerValidator, new, diff_from, constant_time_eq, validate,
}
use mcp_lock.Auth.Bits.{bit_xor-byte, bit_or-byte}

diff_from-eq-zero :
    (d : ℕ) (a b : Bytes)
    → d < 256
    → All IsByte a
    → All IsByte b
    → length a ≡ length b
    → (diff_from d a b ≡ 0) ↔ ((d ≡ 0) × (a ≡ b))
unfolding diff_from
diff_from-eq-zero d [] [] h p q e = ground arith
diff_from-eq-zero d [] (y ∷ b) h p q e = absurd (omega arith)
diff_from-eq-zero d (x ∷ a) [] h p q e = absurd (omega arith)
diff_from-eq-zero d (x ∷ a) (y ∷ b) h p q e =
    let xor = bit_xor-byte x y p.0 q.0 in
    let or = bit_or-byte d (bit_xor x y) h xor.1 in
    let rest = diff_from-eq-zero (bit_or d (bit_xor x y)) a b or.1 p.1 q.1 (omega arith) in
    ground (arith, xor, or, rest)

-- The comparison without early exit says that two byte strings are equal exactly when they are.
pub constant_time_eq_iff :
    (a b : Bytes) → All IsByte a → All IsByte b → (constant_time_eq a b ≡ true) ↔ (a ≡ b)
unfolding constant_time_eq
constant_time_eq_iff a b p q = elim (Bool-cases (nat_eq (length a) (length b))) [
  | inl same ↦ ground (arith, diff_from-eq-zero 0 a b (omega arith) p q (ground arith))
  | inr other ↦ ground arith
]

-- A validator made for a token accepts a presented credential exactly when its bytes are those of
-- the token, and then the client it names is the configured one. There is a validator for every
-- token but the empty one.
pub validate-new :
    (token client_id presented : String) (client : ValidatedClient)
    → token ≢ ""
    → (v : StaticBearerValidator) × (new token client_id ≡ some v)
      × ((validate v (some presented) ≡ ok client)
          ↔ ((as_bytes presented ≡ as_bytes token) × (client ≡ record { client_id = client_id })))
unfolding new validate
validate-new token client_id presented client nonempty = (
  record { expected = as_bytes token; client_id = client_id },
  ground (arith, eq_iff token ""),
  ground (
    arith,
    eq_iff presented "",
    as_bytes-eq-nil token,
    as_bytes_of_empty presented,
    constant_time_eq_iff (as_bytes presented) (as_bytes token) (as_bytes-IsByte presented)
        (as_bytes-IsByte token),
  ),
)

-- The endpoint ships closed: no validator is made for the empty token, and no validator accepts an
-- absent or an empty credential.
pub ships_closed :
    (client_id : String) (v : StaticBearerValidator)
    → (new "" client_id ≡ none)
      × (validate v none ≡ err missing)
      × (validate v (some "") ≡ err missing)
unfolding new validate
ships_closed client_id v = ground arith

new-nonempty :
    (token client_id : String) (v : StaticBearerValidator)
    → new token client_id ≡ some v
    → token ≢ ""
unfolding new
new-nonempty token client_id v made e = ground (arith, eq_iff token "")

-- The same, of a validator that was made.
pub validate_made :
    (v : StaticBearerValidator) (token client_id presented : String) (client : ValidatedClient)
    → new token client_id ≡ some v
    → (validate v (some presented) ≡ ok client)
      ↔ ((as_bytes presented ≡ as_bytes token) × (client ≡ record { client_id = client_id }))
validate_made v token client_id presented client made =
    let r = validate-new token client_id presented client (new-nonempty token client_id v made) in
    let same : r.0 ≡ v = some-injective (sym r.1 ∙ made) in rw (← same) r.2
  where
    some-injective : {a b : StaticBearerValidator} → some a ≡ some b → a ≡ b
    some-injective e = ground arith
