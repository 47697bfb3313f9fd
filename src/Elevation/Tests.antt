-- ===== src/Elevation/Tests.antt =====
-- Tests of the elevation protocol, and its theorems at concrete inputs. The signature scheme here
-- takes the first byte of a signature for the key.
use mcp_lock.Elevation.Encoding.{encode, encode-injective}
use mcp_lock.Prelude.{
  ℕ, zero, suc, swap_remove, ◌≤◌, String, ◌≡◌, refl, ◌↔◌, Bool, false, some, [], ◌∷◌, ◌++◌, arith,
  nat_eq, list_eq, count_if, leb, ◌-◌,
}
use mcp_lock.Prelude.Bytes.{Bytes, as_bytes}
use mcp_lock.Prelude.Hex.{to_hex, from_hex}
use mcp_lock.Prelude.Results.{ok, err}
use mcp_lock.Elevation.Challenge.{
  Nonce, Purpose, elevate, duration, outcome, challenge_message, unknown_or_used_nonce,
  too_many_pending, nonce_expired, nonce_from_hex,
}
use mcp_lock.Elevation.Store.{
  ClientRegistry, Pending, NonceStore, new_store, issue, check_pending, verify_and_consume,
  max_pending_nonces, nonce_ttl_secs,
}
use mcp_lock.Elevation.Binding.{IsNonce, challenge_message-injective}
use mcp_lock.Elevation.Verdict.{IsAuthorised, verify-eq-ok_iff}
use mcp_lock.Elevation.Replay.{replay_refused}
use mcp_lock.Elevation.History.{issues, fresh, next, Inv, Reach-Inv, issue-too_many_iff}

abbrev zeros : ℕ → Bytes
zeros zero = []
zeros (suc n) = 0 ∷ zeros n

abbrev nonce : Nonce
nonce = zeros 31 ++ 7 ∷ []

abbrev request : Purpose
request = elevate "mail" (duration 300)

abbrev entry : Pending
entry = record { nonce = nonce; client_id = "client"; purpose = request; issued_at = 0 }

abbrev store : NonceStore
store = record { pending = entry ∷ [] }

abbrev registry : ClientRegistry ℕ
registry = record { keys = ("client", 5) ∷ [] }

-- The first byte of a signature is the key.
abbrev verify_key : ℕ → Bytes → Bytes → Bool
verify_key k message [] = false
verify_key k message (b ∷ bs) = nat_eq b k

abbrev signature : Bytes
signature = 5 ∷ zeros 63

elevation : Unit {0}
unfolding issue check_pending verify_and_consume list_eq to_hex from_hex as_bytes nonce_from_hex
    challenge_message encode outcome swap_remove
elevation = tt

issued : issue new_store "client" request 0 (some nonce) ≡ (ok nonce, store)
unfolding elevation
issued = refl

accepted :
    verify_and_consume verify_key encode store "client" nonce signature registry 10
    ≡ (ok (outcome request 10), new_store)
unfolding elevation
accepted = refl

expired :
    verify_and_consume verify_key encode store "client" nonce signature registry 61
    ≡ (err nonce_expired, new_store)
unfolding elevation
expired = refl

nonce-IsNonce : IsNonce nonce
nonce-IsNonce = record { sized = refl; bytes = omega arith }

challenge_message-injective_example :
    (nonce ≡ nonce) × (◌≡◌ {A = String} "client" "client") × (request ≡ request)
challenge_message-injective_example =
    challenge_message-injective encode encode-injective nonce nonce "client" "client" request
      request nonce-IsNonce nonce-IsNonce refl

verify-eq-ok_iff_example :
    ((verify_and_consume verify_key encode store "client" nonce signature registry 10).0
      ≡ ok (outcome request 10))
    ↔ IsAuthorised verify_key encode store "client" nonce signature registry 10 (outcome request 10)
verify-eq-ok_iff_example =
    verify-eq-ok_iff verify_key encode store "client" nonce signature registry 10
      (outcome request 10)

replay_refused_example :
    verify_and_consume verify_key encode new_store "client" nonce signature registry 11
    ≡ (err unknown_or_used_nonce, new_store)
unfolding elevation
replay_refused_example =
    replay_refused verify_key encode store "client" nonce [] signature registry registry 10 11
      (omega arith)

Reach-Inv_example : Inv (issue new_store "client" request 0 (some nonce)).1
Reach-Inv_example =
    Reach-Inv verify_key encode (next fresh (issues new_store "client" request 0 nonce refl))

issue-too_many_iff_example :
    ((issue store "client" request 1 (some nonce)).0 ≡ err too_many_pending)
    ↔ (max_pending_nonces ≤ count_if (λ p. leb (1 - p.issued_at) nonce_ttl_secs) store.pending)
issue-too_many_iff_example = issue-too_many_iff store "client" request 1 (some nonce)
