-- ===== src/Elevation/History.antt =====
-- Every store that the operations can reach: it is bounded, and no nonce is outstanding twice.
use mcp_lock.Prelude.{
  suc, ◌+◌, ◌-◌, ◌≤◌, ◌<◌, String, ◌≡◌, refl, ap, inl, inr, ◌↔◌, Bool, true, Option, none, some,
  List, [], ◌∷◌, ◌++◌, arith, length, Bool-cases, count_if, retain, length-append, length-retain-le,
  All, leb, eq_nat, eq_list, list_eq_iff,
}
use text.Mathlib.TextEquality.{eq_iff}
use mcp_lock.Prelude.Search.{count_if-Perm}
use mcp_lock.Prelude.Bytes.{Bytes}
use mcp_lock.Prelude.Results.{ok, err}
use mcp_lock.Policy.Grant.{Timestamp}
use mcp_lock.Elevation.Challenge.{Nonce, Purpose, Doc, too_many_pending}
use mcp_lock.Elevation.Store.{
  nonce_ttl_secs, max_pending_nonces, ClientRegistry, Pending, NonceStore, new_store, is_match,
  is_fresh, issue, verify_and_consume,
}
use mcp_lock.Elevation.Replay.{outstanding, verify_consumes}

count_if-append :
    (p : Pending → Bool) (xs ys : List Pending)
    → count_if p (xs ++ ys) ≡ count_if p xs + count_if p ys
count_if-append p [] ys = omega arith
count_if-append p (x ∷ xs) ys = ground (arith, count_if-append p xs ys)

count_if_all : (xs : List Pending) → count_if (λ _. true) xs ≡ length xs
count_if_all [] = refl
count_if_all (x ∷ xs) = ap suc (count_if_all xs)

count_if-retain-le :
    (p q : Pending → Bool) (xs : List Pending) → count_if p (retain q xs) ≤ count_if p xs
count_if-retain-le p q [] = omega arith
count_if-retain-le p q (x ∷ xs) = ground (arith, count_if-retain-le p q xs)

-- The store after an operation. The generator is taken to draw a nonce that is not outstanding for
-- the client that asks.
pub data Step {Key : Type 0} (verify_strict : Key → Bytes → Bytes → Bool) (to_vec : Doc → Bytes)
    : NonceStore → NonceStore → Type 0 where
  issues :
      (store : NonceStore) (client_id : String) (purpose : Purpose) (now : Timestamp)
      (nonce : Nonce)
      → outstanding nonce client_id store ≡ 0
      → Step verify_strict to_vec store (issue store client_id purpose now (some nonce)).1
  issue_fails :
      (store : NonceStore) (client_id : String) (purpose : Purpose) (now : Timestamp)
      → Step verify_strict to_vec store (issue store client_id purpose now none).1
  verifies :
      (store : NonceStore) (client_id : String) (nonce : Nonce) (signature : Bytes)
      (registry : ClientRegistry Key) (now : Timestamp)
      → Step verify_strict to_vec store
          (verify_and_consume verify_strict to_vec store client_id nonce signature registry now).1

pub data Reach {Key : Type 0} (verify_strict : Key → Bytes → Bytes → Bool) (to_vec : Doc → Bytes)
    : NonceStore → Type 0 where
  fresh : Reach verify_strict to_vec new_store
  next :
      {s t : NonceStore}
      → Reach verify_strict to_vec s
      → Step verify_strict to_vec s t
      → Reach verify_strict to_vec t

pub record Inv (store : NonceStore) : Type 0 where
  pub bounded : length store.pending ≤ max_pending_nonces
  pub unique : (nonce : Nonce) (client_id : String) → outstanding nonce client_id store ≤ 1

issue-bounded :
    (store : NonceStore) (client_id : String) (purpose : Purpose) (now : Timestamp)
    (drawn : Option Nonce)
    → length store.pending ≤ max_pending_nonces
    → length (issue store client_id purpose now drawn).1.pending ≤ max_pending_nonces
unfolding issue
issue-bounded store client_id purpose now none h =
    ground (arith, length-retain-le (is_fresh now) store.pending)
issue-bounded store client_id purpose now (some nonce) h = ground (
  arith,
  length-retain-le (is_fresh now) store.pending,
  length-append (retain (is_fresh now) store.pending)
      (record { nonce = nonce; client_id = client_id; purpose = purpose; issued_at = now } ∷ []),
)

abbrev pending_for : Nonce → String → Purpose → Timestamp → Pending
pending_for nonce client_id purpose now = record {
  nonce = nonce;
  client_id = client_id;
  purpose = purpose;
  issued_at = now;
}

is_match_new :
    (n m : Nonce) (c d : String) (purpose : Purpose) (now : Timestamp)
    → is_match n c (pending_for m d purpose now) ≡ true
    → (m ≡ n) × (d ≡ c)
is_match_new n m c d purpose now h = ground (arith, list_eq_iff m n, eq_iff d c)

outstanding-issue-le :
    (store : NonceStore) (client_id : String) (purpose : Purpose) (now : Timestamp) (m n : Nonce)
    (c : String)
    → outstanding m client_id store ≡ 0
    → outstanding n c store ≤ 1
    → outstanding n c (issue store client_id purpose now (some m)).1 ≤ 1
unfolding issue
outstanding-issue-le store client_id purpose now m n c free once =
    elim (Bool-cases (is_match n c new)) [
      | inl hit ↦
          let (same_nonce, same_client) = is_match_new n m c client_id purpose now hit in
          let none_left : outstanding n c store ≡ 0 = rw (← same_nonce, ← same_client) free in
          ground (arith, split, shrunk)
      | inr miss ↦ ground (arith, split, shrunk)
    ]
  where
    new : Pending
    new = pending_for m client_id purpose now

    kept : List Pending
    kept = retain (is_fresh now) store.pending

    split :
        count_if (is_match n c) (kept ++ new ∷ [])
        ≡ count_if (is_match n c) kept + count_if (is_match n c) (new ∷ [])
    split = count_if-append (is_match n c) kept (new ∷ [])

    shrunk : count_if (is_match n c) kept ≤ count_if (is_match n c) store.pending
    shrunk = count_if-retain-le (is_match n c) (is_fresh now) store.pending

outstanding-issue-none :
    (store : NonceStore) (client_id : String) (purpose : Purpose) (now : Timestamp) (n : Nonce)
    (c : String)
    → outstanding n c (issue store client_id purpose now none).1 ≤ outstanding n c store
unfolding issue
outstanding-issue-none store client_id purpose now n c =
    ground (arith, count_if-retain-le (is_match n c) (is_fresh now) store.pending)

module _ {Key : Type 0} (verify_strict : Key → Bytes → Bytes → Bool) (to_vec : Doc → Bytes) where
  outstanding-verify-le :
      (store : NonceStore) (client_id : String) (nonce : Nonce) (signature : Bytes)
      (registry : ClientRegistry Key) (now : Timestamp) (n : Nonce) (c : String)
      → outstanding n c
          (verify_and_consume verify_strict to_vec store client_id nonce signature registry now).1
        ≤ outstanding n c store
  outstanding-verify-le store client_id nonce signature registry now n c =
      elim (verify_consumes verify_strict to_vec store client_id nonce signature registry now) [
        | inl r ↦ ground (arith, count_if-Perm (is_match n c) r.2)
        | inr r ↦ ground (arith, r.2)
      ]

  verify-bounded :
      (store : NonceStore) (client_id : String) (nonce : Nonce) (signature : Bytes)
      (registry : ClientRegistry Key) (now : Timestamp)
      → length
          (verify_and_consume verify_strict to_vec store client_id nonce signature registry
            now).1.pending
        ≤ length store.pending
  verify-bounded store client_id nonce signature registry now =
      elim (verify_consumes verify_strict to_vec store client_id nonce signature registry now) [
        | inl r ↦ omega (
          arith,
          count_if-Perm (λ _. true) r.2,
          count_if_all store.pending,
          count_if_all
              (verify_and_consume verify_strict to_vec store client_id nonce signature registry
                now).1.pending,
        )
        | inr r ↦ ground (arith, r.2)
      ]

  Step-Inv : {s t : NonceStore} → Step verify_strict to_vec s t → Inv s → Inv t
  Step-Inv (issues store client_id purpose now nonce free) v = record {
    bounded = issue-bounded store client_id purpose now (some nonce) v.bounded;
    unique = λ n c. outstanding-issue-le store client_id purpose now nonce n c free (v.unique n c);
  }
  Step-Inv (issue_fails store client_id purpose now) v = record {
    bounded = issue-bounded store client_id purpose now none v.bounded;
    unique =
        λ n c. omega (arith, outstanding-issue-none store client_id purpose now n c, v.unique n c);
  }
  Step-Inv (verifies store client_id nonce signature registry now) v = record {
    bounded = omega (arith, verify-bounded store client_id nonce signature registry now, v.bounded);
    unique = λ n c. omega (
      arith,
      outstanding-verify-le store client_id nonce signature registry now n c,
      v.unique n c,
    );
  }

  -- Every store that issues and verifications reach from the empty one holds at most
  -- `max_pending_nonces` entries, and at most one for each nonce and client.
  pub Reach-Inv : {s : NonceStore} → Reach verify_strict to_vec s → Inv s
  Reach-Inv fresh = record { bounded = omega arith; unique = λ n c. omega arith }
  Reach-Inv (next r st) = Step-Inv st (Reach-Inv r)

retain_stale :
    (now : Timestamp) (ps : List Pending)
    → All (λ p. nonce_ttl_secs < now - p.issued_at) ps
    → retain (is_fresh now) ps ≡ []
retain_stale now [] h = refl
retain_stale now (p ∷ ps) h = ground (arith, retain_stale now ps h.1)

-- Once every outstanding nonce is older than its lifetime, a request succeeds again whatever the
-- number of entries was, and its nonce is then the only one outstanding.
pub issue_after_ttl :
    (store : NonceStore) (client_id : String) (purpose : Purpose) (now : Timestamp) (nonce : Nonce)
    → All (λ p. nonce_ttl_secs < now - p.issued_at) store.pending
    → issue store client_id purpose now (some nonce) ≡ (
      ok nonce,
      record {
        pending =
            record { nonce = nonce; client_id = client_id; purpose = purpose; issued_at = now }
            ∷ [];
      },
    )
unfolding issue
issue_after_ttl store client_id purpose now nonce h =
    rw (retain_stale now store.pending h, issue) refl

length-prune :
    (now : Timestamp) (ps : List Pending)
    → length (retain (is_fresh now) ps) ≡ count_if (λ p. leb (now - p.issued_at) nonce_ttl_secs) ps
length-prune now [] = refl
length-prune now (p ∷ ps) = ground (arith, length-prune now ps)

-- A request is refused for too many nonces exactly when `max_pending_nonces` of the outstanding
-- entries, or more, are at most `nonce_ttl_secs` old: an older one never counts.
pub issue-too_many_iff :
    (store : NonceStore) (client_id : String) (purpose : Purpose) (now : Timestamp)
    (drawn : Option Nonce)
    → ((issue store client_id purpose now drawn).0 ≡ err too_many_pending)
      ↔ (max_pending_nonces ≤ count_if (λ p. leb (now - p.issued_at) nonce_ttl_secs) store.pending)
unfolding issue
issue-too_many_iff store client_id purpose now none = ground (arith, length-prune now store.pending)
issue-too_many_iff store client_id purpose now (some nonce) =
    ground (arith, length-prune now store.pending)
