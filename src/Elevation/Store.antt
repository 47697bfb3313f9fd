-- ===== src/Elevation/Store.antt =====
-- crates/core/src/elevation.rs: the client registry and the store of outstanding nonces.
use mcp_lock.Prelude.{
  ℕ, ◌-◌, String, Bool, not, ◌&&◌, Option, none, some, List, [], ◌∷◌, ◌++◌, ltb, leb, nat_eq, ◌==◌,
  eq_nat, eq_list, eq_string, length, get_elem?, retain, position, swap_remove, if◌then◌else◌,
}
use mcp_lock.Prelude.BTreeMap.{BTreeMap, get, insert}
use mcp_lock.Prelude.Bytes.{Bytes}
use mcp_lock.Prelude.Results.{Result, ok, err, ◌>>=◌, ◌>>◌, reject_if, ok_or}
use mcp_lock.Policy.Grant.{Timestamp}
use mcp_lock.Elevation.Challenge.{
  Nonce, Purpose, Verified, ElevationError, rng, unknown_or_used_nonce, too_many_pending,
  nonce_expired, unknown_client, malformed, bad_signature, Doc, challenge_message, outcome,
}

abbrev pub nonce_ttl_secs : ℕ
nonce_ttl_secs = 60

abbrev pub max_pending_nonces : ℕ
max_pending_nonces = 1024

-- ed25519_dalek's SIGNATURE_LENGTH.
abbrev pub signature_length : ℕ
signature_length = 64

pub record ClientRegistry (Key : Type 0) : Type 0 where
  pub keys : BTreeMap Key

module _ {Key : Type 0} where
  abbrev pub new_registry : ClientRegistry Key
  new_registry = record { keys = [] }

  -- `from_bytes` is ed25519_dalek's `VerifyingKey::from_bytes`.
  unfoldable pub register :
      (Bytes → Option Key)
      → ClientRegistry Key
      → String
      → Bytes
      → Result (ClientRegistry Key) ElevationError
  register from_bytes registry client_id public_key = do
    key ← ok_or (from_bytes public_key) malformed
    ok (record { keys = insert client_id key registry.keys })

  abbrev pub key : ClientRegistry Key → String → Option Key
  key registry client_id = get client_id registry.keys

pub record Pending : Type 0 where
  pub nonce : Nonce
  pub client_id : String
  pub purpose : Purpose
  pub issued_at : Timestamp

pub record NonceStore : Type 0 where
  pub pending : List Pending

abbrev pub new_store : NonceStore
new_store = record { pending = [] }

abbrev pub is_fresh : Timestamp → Pending → Bool
is_fresh now p = leb (now - p.issued_at) nonce_ttl_secs

abbrev pub prune : Timestamp → NonceStore → NonceStore
prune now store = record { pending = retain (is_fresh now) store.pending }

abbrev pub push_nonce :
    String
    → Purpose
    → Timestamp
    → NonceStore
    → Option Nonce
    → Result Nonce ElevationError × NonceStore
push_nonce client_id purpose now store none = (err rng, store)
push_nonce client_id purpose now store (some nonce) = (
  ok nonce,
  record {
    pending =
        store.pending
        ++ record { nonce = nonce; client_id = client_id; purpose = purpose; issued_at = now } ∷ [];
  },
)

-- `drawn` is the answer of the random generator.
unfoldable pub issue :
    NonceStore
    → String
    → Purpose
    → Timestamp
    → Option Nonce
    → Result Nonce ElevationError × NonceStore
issue store client_id purpose now drawn =
    let pruned = prune now store in
    if leb max_pending_nonces (length pruned.pending)
    then (err too_many_pending, pruned)
    else push_nonce client_id purpose now pruned drawn

abbrev pub is_match : Nonce → String → Pending → Bool
is_match nonce client_id p = p.nonce == nonce && p.client_id == client_id

module _ {Key : Type 0} (verify_strict : Key → Bytes → Bytes → Bool) (to_vec : Doc → Bytes) where
  -- The checks on the entry that was taken out.
  unfoldable pub check_pending :
      Pending
      → String
      → Nonce
      → Bytes
      → ClientRegistry Key
      → Timestamp
      → Result Verified ElevationError
  check_pending p client_id nonce signature registry now = do
    reject_if (ltb nonce_ttl_secs (now - p.issued_at)) nonce_expired
    k ← ok_or (key registry client_id) unknown_client
    reject_if (not (nat_eq (length signature) signature_length)) malformed
    reject_if (not (verify_strict k (challenge_message to_vec nonce client_id p.purpose) signature))
        bad_signature
    ok (outcome p.purpose now)

  abbrev pub consumed :
      NonceStore
      → String
      → Nonce
      → Bytes
      → ClientRegistry Key
      → Timestamp
      → ℕ
      → Option Pending
      → Result Verified ElevationError × NonceStore
  consumed store client_id nonce signature registry now i none = (err unknown_or_used_nonce, store)
  consumed store client_id nonce signature registry now i (some p) = (
    check_pending p client_id nonce signature registry now,
    record { pending = swap_remove store.pending i },
  )

  unfoldable pub verify_and_consume :
      NonceStore
      → String
      → Nonce
      → Bytes
      → ClientRegistry Key
      → Timestamp
      → Result Verified ElevationError × NonceStore
  verify_and_consume store client_id nonce signature registry now =
      elim (position (is_match nonce client_id) store.pending) [
        | none ↦ (err unknown_or_used_nonce, store)
        | some i ↦
            consumed store client_id nonce signature registry now i (get_elem? store.pending i)
      ]
