-- ===== src/Elevation/Verdict.antt =====
-- When an assertion is accepted.
use mcp_lock.Prelude.{
  ◌-◌, ◌≤◌, String, ◌≡◌, ◌↔◌, inl, inr, Bool, true, some, arith, length, find, position,
  Option-cases,
}
use mcp_lock.Prelude.Search.{get_elem?-position, find-position-none, position-eq-some}
use mcp_lock.Prelude.BTreeMap.{get}
use mcp_lock.Prelude.Bytes.{Bytes}
use mcp_lock.Prelude.Results.{ok}
use mcp_lock.Policy.Grant.{Timestamp}
use mcp_lock.Elevation.Challenge.{Nonce, Verified, Doc, challenge_message, outcome}
use mcp_lock.Elevation.Store.{
  nonce_ttl_secs, signature_length, ClientRegistry, new_registry, Pending, NonceStore, is_match,
  check_pending, verify_and_consume,
}

module _ {Key : Type 0} (verify_strict : Key → Bytes → Bytes → Bool) (to_vec : Doc → Bytes) where
  -- What stands behind an accepted assertion: an outstanding entry for this nonce and client, young
  -- enough; a registered key of the client; and a signature of the right length that verifies, under
  -- that key, for the message of the entry's own purpose.
  pub record IsAuthorised (store : NonceStore) (client_id : String) (nonce : Nonce)
      (signature : Bytes) (registry : ClientRegistry Key) (now : Timestamp) (v : Verified)
      : Type 0 where
    pub entry : Pending
    pub found : find (is_match nonce client_id) store.pending ≡ some entry
    pub young : now - entry.issued_at ≤ nonce_ttl_secs
    pub key : Key
    pub registered : get client_id registry.keys ≡ some key
    pub sized : length signature ≡ signature_length
    pub signed :
        verify_strict key (challenge_message to_vec nonce client_id entry.purpose) signature ≡ true
    pub yields : v ≡ outcome entry.purpose now

  check_pending-eq-ok :
      (p : Pending) (client_id : String) (nonce : Nonce) (signature : Bytes)
      (registry : ClientRegistry Key) (now : Timestamp) (v : Verified)
      → check_pending verify_strict to_vec p client_id nonce signature registry now ≡ ok v
      → (now - p.issued_at ≤ nonce_ttl_secs)
        × (length signature ≡ signature_length)
        × (k : Key) × (get client_id registry.keys ≡ some k)
        × (verify_strict k (challenge_message to_vec nonce client_id p.purpose) signature ≡ true)
        × (v ≡ outcome p.purpose now)
  unfolding check_pending
  check_pending-eq-ok p client_id nonce signature registry now v h =
      elim (Option-cases (get client_id registry.keys)) [
        | inl e ↦ absurd (ground arith)
        | inr (k, e) ↦ (ground arith, ground arith, k, e, ground arith, ground arith)
      ]

  verify-eq-ok :
      (store : NonceStore) (client_id : String) (nonce : Nonce) (signature : Bytes)
      (registry : ClientRegistry Key) (now : Timestamp) (v : Verified)
      → (verify_and_consume verify_strict to_vec store client_id nonce signature registry now).0
        ≡ ok v
      → IsAuthorised store client_id nonce signature registry now v
  unfolding verify_and_consume
  verify-eq-ok store client_id nonce signature registry now v h =
      elim (Option-cases (position (is_match nonce client_id) store.pending)) [
        | inl e ↦ absurd (ground arith)
        | inr (i, e) ↦
            let (p, at_i, hit) = position-eq-some (is_match nonce client_id) store.pending i e in
            let judged : check_pending verify_strict to_vec p client_id nonce signature registry now
                ≡ ok v =
              ground arith in
            let (young, sized, k, registered, signed, yields) =
              check_pending-eq-ok p client_id nonce signature registry now v judged in
            record {
              entry = p;
              found =
                  ground (arith, get_elem?-position (is_match nonce client_id) store.pending i e);
              young = young;
              key = k;
              registered = registered;
              sized = sized;
              signed = signed;
              yields = yields;
            }
      ]

  verify_of_IsAuthorised :
      (store : NonceStore) (client_id : String) (nonce : Nonce) (signature : Bytes)
      (registry : ClientRegistry Key) (now : Timestamp) (v : Verified)
      → IsAuthorised store client_id nonce signature registry now v
      → (verify_and_consume verify_strict to_vec store client_id nonce signature registry now).0
        ≡ ok v
  unfolding verify_and_consume check_pending
  verify_of_IsAuthorised store client_id nonce signature registry now v a =
      elim (Option-cases (position (is_match nonce client_id) store.pending)) [
        | inl e ↦
            absurd (
              ground
                (arith, a.found, find-position-none (is_match nonce client_id) store.pending e))
        | inr (i, e) ↦
            ground (arith, get_elem?-position (is_match nonce client_id) store.pending i e)
      ]

  -- An assertion is accepted exactly when it is authorised, and then yields what the entry's purpose
  -- asks for, granted at this time.
  pub verify-eq-ok_iff :
      (store : NonceStore) (client_id : String) (nonce : Nonce) (signature : Bytes)
      (registry : ClientRegistry Key) (now : Timestamp) (v : Verified)
      → ((verify_and_consume verify_strict to_vec store client_id nonce signature registry now).0
          ≡ ok v)
        ↔ IsAuthorised store client_id nonce signature registry now v
  verify-eq-ok_iff store client_id nonce signature registry now v = (
    verify-eq-ok store client_id nonce signature registry now v,
    verify_of_IsAuthorised store client_id nonce signature registry now v,
  )

  -- With no registered client, no assertion is accepted.
  pub verify_ships_closed :
      (store : NonceStore) (client_id : String) (nonce : Nonce) (signature : Bytes)
      (now : Timestamp) (v : Verified)
      → ¬ (
          (verify_and_consume verify_strict to_vec store client_id nonce signature new_registry
            now).0
          ≡ ok v)
  verify_ships_closed store client_id nonce signature now v h =
      ground (arith, (verify-eq-ok store client_id nonce signature new_registry now v h).registered)
