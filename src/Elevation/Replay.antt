-- ===== src/Elevation/Replay.antt =====
-- A nonce is used once.
use mcp_lock.Prelude.{
  ℕ, suc, ◌≤◌, String, ◌≡◌, refl, ◌⊎◌, inl, inr, Bool, true, ◌∷◌, Perm, arith, position,
  Option-cases, count_if, swap_remove-perm, eq_nat, eq_list, eq_string,
}
use mcp_lock.Prelude.Search.{
  position-eq-none, position_of_count-zero, position-eq-some, count_if-swap_remove,
}
use mcp_lock.Prelude.Bytes.{Bytes}
use mcp_lock.Prelude.Results.{err}
use mcp_lock.Policy.Grant.{Timestamp}
use mcp_lock.Elevation.Challenge.{Nonce, unknown_or_used_nonce, Doc}
use mcp_lock.Elevation.Store.{ClientRegistry, Pending, NonceStore, is_match, verify_and_consume}

-- How many entries of the store a nonce and a client have.
abbrev pub outstanding : Nonce → String → NonceStore → ℕ
outstanding nonce client_id store = count_if (is_match nonce client_id) store.pending

module _ {Key : Type 0} (verify_strict : Key → Bytes → Bytes → Bool) (to_vec : Doc → Bytes) where
  -- Whatever comes of an attempt, acceptance or any failure of the checks: if there is an entry for
  -- the nonce and the client, one such entry is taken out and every other entry stays; if there is
  -- none, the attempt is refused as unknown or used and the store is as it was.
  pub verify_consumes :
      (store : NonceStore) (client_id : String) (nonce : Nonce) (signature : Bytes)
      (registry : ClientRegistry Key) (now : Timestamp)
      → let (result, after) =
          verify_and_consume verify_strict to_vec store client_id nonce signature registry now in
        ((entry : Pending) × (is_match nonce client_id entry ≡ true)
          × Perm store.pending (entry ∷ after.pending)
          × (outstanding nonce client_id store ≡ suc (outstanding nonce client_id after)))
        ⊎ ((outstanding nonce client_id store ≡ 0)
            × (result ≡ err unknown_or_used_nonce)
            × (after ≡ store))
  unfolding verify_and_consume
  verify_consumes store client_id nonce signature registry now =
      elim (Option-cases (position (is_match nonce client_id) store.pending)) [
        | inl e ↦ rw (e, verify_and_consume) (inr (position-eq-none _ store.pending e, refl, refl))
        | inr (i, e) ↦
            let (p, at_i, hit) = position-eq-some (is_match nonce client_id) store.pending i e in
            rw (e, at_i, verify_and_consume)
              (inl (
                p,
                hit,
                swap_remove-perm store.pending i p at_i,
                count_if-swap_remove (is_match nonce client_id) store.pending i e,
              ))
      ]

  verify_unknown :
      (store : NonceStore) (client_id : String) (nonce : Nonce) (signature : Bytes)
      (registry : ClientRegistry Key) (now : Timestamp)
      → outstanding nonce client_id store ≡ 0
      → verify_and_consume verify_strict to_vec store client_id nonce signature registry now
        ≡ (err unknown_or_used_nonce, store)
  unfolding verify_and_consume
  verify_unknown store client_id nonce signature registry now h =
      rw (position_of_count-zero (is_match nonce client_id) store.pending h, verify_and_consume)
        refl

  -- A nonce outstanding at most once for its client is good for one attempt: after any attempt,
  -- also one that failed, each later attempt with it is refused as unknown or used, whatever its
  -- signature, registry and time.
  pub replay_refused :
      (store : NonceStore) (client_id : String) (nonce : Nonce) (signature again : Bytes)
      (registry registry' : ClientRegistry Key) (now later : Timestamp)
      → outstanding nonce client_id store ≤ 1
      → let after =
          (verify_and_consume verify_strict to_vec store client_id nonce signature registry
            now).1 in
        verify_and_consume verify_strict to_vec after client_id nonce again registry' later
        ≡ (err unknown_or_used_nonce, after)
  replay_refused store client_id nonce signature again registry registry' now later once =
      verify_unknown _ client_id nonce again registry' later
        (elim (verify_consumes store client_id nonce signature registry now) [
          | inl r ↦ omega (arith, r.3)
          | inr r ↦ rw r.2 r.0
        ])
