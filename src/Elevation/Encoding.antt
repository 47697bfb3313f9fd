-- ===== src/Elevation/Encoding.antt =====
-- A serialization that tells documents apart, for the tests: texts end with 0, options start with a
-- flag. The program's own is serde_json's.
use Prim.Native.Char.{code}
use text.Mathlib.TextEquality.{Char-path}
use mcp_lock.Prelude.{ℕ, suc, String, ◌≡◌, refl, ap, Option, none, some, [], ◌∷◌, arith}
use mcp_lock.Prelude.Bytes.{Bytes}
use mcp_lock.Elevation.Challenge.{Doc}

abbrev put_text : String → Bytes → Bytes
put_text String.[] rest = 0 ∷ rest
put_text (String.◌∷◌ c s) rest = suc (code c) ∷ put_text s rest

abbrev put_text? : Option String → Bytes → Bytes
put_text? none rest = 0 ∷ rest
put_text? (some s) rest = 1 ∷ put_text s rest

abbrev put_number? : Option ℕ → Bytes → Bytes
put_number? none rest = 0 ∷ rest
put_number? (some n) rest = 1 ∷ n ∷ rest

unfoldable pub encode : Doc → Bytes
encode d =
    d.v
    ∷ put_text d.purpose (
        put_text d.client (
          put_text d.nonce
            (put_text d.server (put_text? d.tool (put_text? d.mode (put_number? d.ttl []))))))

put_text-inj : (s t : String) (xs ys : Bytes) → put_text s xs ≡ put_text t ys → (s ≡ t) × (xs ≡ ys)
put_text-inj String.[] String.[] xs ys e = (refl, ground arith)
put_text-inj String.[] (String.◌∷◌ d t) xs ys e = absurd (ground arith)
put_text-inj (String.◌∷◌ c s) String.[] xs ys e = absurd (ground arith)
put_text-inj (String.◌∷◌ c s) (String.◌∷◌ d t) xs ys e =
    let (tails, rests) = put_text-inj s t xs ys (ground arith) in
    let heads : c ≡ d = Char-path c d (ground arith) in (cc, rests)

put_text?-inj :
    (s t : Option String) (xs ys : Bytes) → put_text? s xs ≡ put_text? t ys → (s ≡ t) × (xs ≡ ys)
put_text?-inj none none xs ys e = (refl, ground arith)
put_text?-inj none (some t) xs ys e = absurd (ground arith)
put_text?-inj (some s) none xs ys e = absurd (ground arith)
put_text?-inj (some s) (some t) xs ys e =
    let (same, rests) = put_text-inj s t xs ys (ground arith) in (ap some same, rests)

put_number?-inj : (m n : Option ℕ) → put_number? m [] ≡ put_number? n [] → m ≡ n
put_number?-inj none none e = refl
put_number?-inj none (some n) e = absurd (ground arith)
put_number?-inj (some m) none e = absurd (ground arith)
put_number?-inj (some m) (some n) e = ground arith

pub encode-injective : (a b : Doc) → encode a ≡ encode b → a ≡ b
unfolding encode
encode-injective a b e =
    let first : a.v ≡ b.v = ground arith in
    let (purposes, e₁) = put_text-inj a.purpose b.purpose _ _ (ground arith) in
    let (clients, e₂) = put_text-inj a.client b.client _ _ e₁ in
    let (nonces, e₃) = put_text-inj a.nonce b.nonce _ _ e₂ in
    let (servers, e₄) = put_text-inj a.server b.server _ _ e₃ in
    let (tools, e₅) = put_text?-inj a.tool b.tool _ _ e₄ in
    let (modes, e₆) = put_text?-inj a.mode b.mode _ _ e₅ in
    let ttls = put_number?-inj a.ttl b.ttl e₆ in
    λ i. record {
      v = first i;
      purpose = purposes i;
      client = clients i;
      nonce = nonces i;
      server = servers i;
      tool = tools i;
      mode = modes i;
      ttl = ttls i;
    }
