-- ===== src/Auth/Tests.antt =====
-- Tests of the token comparison, and its theorems at concrete inputs.
use mcp_lock.Prelude.{String, ◌≡◌, refl, ◌≢◌, ◌↔◌, true, some, [], ◌∷◌, arith}
use text.Mathlib.TextEquality.{eq_iff}
use mcp_lock.Prelude.Bytes.{Bytes, as_bytes}
use mcp_lock.Prelude.Results.{ok, err}
use mcp_lock.Auth.{
  ValidatedClient, invalid, StaticBearerValidator, new, diff_from, constant_time_eq, validate,
}
use mcp_lock.Auth.Tokens.{constant_time_eq_iff, validate-new}

auth : Unit {0}
unfolding new as_bytes diff_from constant_time_eq validate
auth = tt

abbrev claude : ValidatedClient
claude = record { client_id = "claude" }

abbrev validator : StaticBearerValidator
validator = record { expected = 104 ∷ 105 ∷ []; client_id = "claude" }

made : new "hi" "claude" ≡ some validator
unfolding auth
made = refl

accepted : validate validator (some "hi") ≡ ok (record { client_id = "claude" })
unfolding auth
accepted = refl

one_bit_off : validate validator (some "hh") ≡ err invalid
unfolding auth
one_bit_off = refl

longer : validate validator (some "hi!") ≡ err invalid
unfolding auth
longer = refl

constant_time_eq_iff_example :
    (constant_time_eq (104 ∷ 105 ∷ []) (104 ∷ 104 ∷ []) ≡ true)
    ↔ (◌≡◌ {A = Bytes} (104 ∷ 105 ∷ []) (104 ∷ 104 ∷ []))
constant_time_eq_iff_example =
    constant_time_eq_iff (104 ∷ 105 ∷ []) (104 ∷ 104 ∷ []) (omega arith, (omega arith, tt))
      (omega arith, (omega arith, tt))

hi_nonempty : ◌≢◌ {A = String} "hi" ""
hi_nonempty h = ground (arith, eq_iff "hi" "")

validate-new_example :
    (v : StaticBearerValidator) × (new "hi" "claude" ≡ some v)
    × ((validate v (some "hi") ≡ ok claude)
        ↔ ((as_bytes "hi" ≡ as_bytes "hi") × (claude ≡ record { client_id = "claude" })))
validate-new_example = validate-new "hi" "claude" "hi" claude hi_nonempty
