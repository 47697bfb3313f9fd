-- ===== src/Elevation/Binding.antt =====
-- A signed challenge is about one request only.
use mcp_lock.Prelude.{String, ◌≡◌, refl, sym, ap, ◌∙◌, subst, some, arith, length, All}
use mcp_lock.Prelude.Bytes.{Bytes}
use mcp_lock.Prelude.Hex.{to_hex, from_hex}
use mcp_lock.Prelude.Bytes.Range.{IsByte}
use mcp_lock.Prelude.Hex.RoundTrip.{from_hex-to_hex}
use mcp_lock.Elevation.Challenge.{
  Nonce, nonce_len, nonce_from_hex, Purpose, elevate, confirm, duration, until_revoked, Doc,
  challenge_doc, challenge_message,
}

-- A nonce is an array of `nonce_len` bytes.
pub record IsNonce (n : Nonce) : Type 0 where
  pub sized : length n ≡ nonce_len
  pub bytes : All IsByte n

-- A nonce is read back from the text in which it travels.
pub from_hex-to_hex_nonce : (n : Nonce) → IsNonce n → nonce_from_hex (to_hex n) ≡ some n
unfolding nonce_from_hex
from_hex-to_hex_nonce n v =
    subst (λ k. from_hex k (to_hex n) ≡ some n) v.sized (from_hex-to_hex n v.bytes)

to_hex-injective : (m n : Nonce) → IsNonce m → IsNonce n → to_hex m ≡ to_hex n → m ≡ n
to_hex-injective m n v w e = cc (from_hex-to_hex_nonce m v, from_hex-to_hex_nonce n w)

purpose_of_doc :
    (m n : Nonce) (c d : String) (p q : Purpose) → challenge_doc m c p ≡ challenge_doc n d q → p ≡ q
unfolding challenge_doc
purpose_of_doc m n c d (elevate s (duration t)) (elevate s' (duration t')) e = ground arith
purpose_of_doc m n c d (elevate s (duration t)) (elevate s' until_revoked) e = ground arith
purpose_of_doc m n c d (elevate s until_revoked) (elevate s' (duration t')) e = ground arith
purpose_of_doc m n c d (elevate s until_revoked) (elevate s' until_revoked) e = ground arith
purpose_of_doc m n c d (elevate s mo) (confirm s' t') e = ground arith
purpose_of_doc m n c d (confirm s t) (elevate s' mo) e = ground arith
purpose_of_doc m n c d (confirm s t) (confirm s' t') e = ground arith

nonce-doc : (n : Nonce) (c : String) (p : Purpose) → (challenge_doc n c p).nonce ≡ to_hex n
unfolding challenge_doc
nonce-doc n c (elevate s m) = refl
nonce-doc n c (confirm s t) = refl

client-doc : (n : Nonce) (c : String) (p : Purpose) → (challenge_doc n c p).client ≡ c
unfolding challenge_doc
client-doc n c (elevate s m) = refl
client-doc n c (confirm s t) = refl

-- If two challenges have one message, then they have the same nonce, client and purpose, and so the
-- same server, tool, mode and window: a signature for one request fits no other. The serialization
-- is taken to give different documents different bytes.
pub challenge_message-injective :
    (to_vec : Doc → Bytes) (to_vec-injective : (a b : Doc) → to_vec a ≡ to_vec b → a ≡ b)
    (m n : Nonce) (c d : String) (p q : Purpose)
    → IsNonce m
    → IsNonce n
    → challenge_message to_vec m c p ≡ challenge_message to_vec n d q
    → (m ≡ n) × (c ≡ d) × (p ≡ q)
unfolding challenge_message
challenge_message-injective to_vec to_vec-injective m n c d p q v w e =
    let same : challenge_doc m c p ≡ challenge_doc n d q = to_vec-injective _ _ e in
    (
      to_hex-injective m n v w (sym (nonce-doc m c p) ∙ ap (λ x. x.nonce) same ∙ nonce-doc n d q),
      sym (client-doc m c p) ∙ ap (λ x. x.client) same ∙ client-doc n d q,
      purpose_of_doc m n c d p q same,
    )
