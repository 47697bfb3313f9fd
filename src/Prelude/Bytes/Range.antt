-- ===== src/Prelude/Bytes/Range.antt =====
-- The encoding of a text is made of bytes, and is empty for the empty text only.
use Prim.Native.Char.{Char, char, code, IsLt}
use Prim.Native.Nat.{ℕ, ◌<◌, compare, Ordering}
use Prim.Native.String.{String}
use mathlib.Core.Path.{◌≡◌, refl}
use mathlib.Core.List.{[], ◌∷◌, ◌++◌}
use native.Mathlib.Omega.{arith}
use mcp_lock.Prelude.Lists.{All}
use mcp_lock.Prelude.Bytes.{Bytes, as_bytes, utf8}

abbrev pub IsByte : ℕ → Type 0
IsByte b = b < 256

-- The clauses of `IsScalar`, whose own helpers are private to its module.
abbrev Both : Ordering → Ordering → Type 0
Both Ordering.lt o = IsLt o
Both Ordering.eq _ = ⊥
Both Ordering.gt _ = ⊥

abbrev Scalar : Ordering → Ordering → Ordering → Type 0
Scalar Ordering.lt _ _ = Unit
Scalar Ordering.eq o p = Both o p
Scalar Ordering.gt o p = Both o p

Scalar-lt :
    (n : ℕ) (o p q : Ordering)
    → compare n 55296 ≡ o
    → compare n 1114112 ≡ q
    → Scalar o p q
    → n < 0x110000
Scalar-lt n Ordering.lt p q e f h = ground arith
Scalar-lt n Ordering.eq Ordering.lt Ordering.lt e f h = ground arith
Scalar-lt n Ordering.gt Ordering.lt Ordering.lt e f h = ground arith
Scalar-lt n Ordering.eq Ordering.lt Ordering.eq e f h = absurd h
Scalar-lt n Ordering.eq Ordering.lt Ordering.gt e f h = absurd h
Scalar-lt n Ordering.gt Ordering.lt Ordering.eq e f h = absurd h
Scalar-lt n Ordering.gt Ordering.lt Ordering.gt e f h = absurd h
Scalar-lt n Ordering.eq Ordering.eq q e f h = absurd h
Scalar-lt n Ordering.eq Ordering.gt q e f h = absurd h
Scalar-lt n Ordering.gt Ordering.eq q e f h = absurd h
Scalar-lt n Ordering.gt Ordering.gt q e f h = absurd h

code-lt : (c : Char) → code c < 0x110000
code-lt (char n p) = Scalar-lt n (compare n 55296) (compare 57343 n) (compare n 1114112) refl refl p

utf8-IsByte : (n : ℕ) → n < 0x110000 → All IsByte (utf8 n)
utf8-IsByte n h = ground arith

All-append : (xs ys : Bytes) → All IsByte xs → All IsByte ys → All IsByte (xs ++ ys)
All-append [] ys p q = q
All-append (x ∷ xs) ys p q = (p.0, All-append xs ys p.1 q)

pub as_bytes-IsByte : (s : String) → All IsByte (as_bytes s)
unfolding as_bytes
as_bytes-IsByte String.[] = tt
as_bytes-IsByte (String.◌∷◌ c s) =
    All-append (utf8 (code c)) (as_bytes s) (utf8-IsByte (code c) (code-lt c)) (as_bytes-IsByte s)

utf8-cons : (n : ℕ) (bs : Bytes) → ¬ (utf8 n ++ bs ≡ [])
utf8-cons n bs h = ground arith

pub as_bytes-eq-nil : (s : String) → as_bytes s ≡ [] → s ≡ ""
unfolding as_bytes
as_bytes-eq-nil String.[] h = refl
as_bytes-eq-nil (String.◌∷◌ c s) h = absurd (utf8-cons (code c) (as_bytes s) h)

pub as_bytes_of_empty : (s : String) → s ≡ "" → as_bytes s ≡ []
unfolding as_bytes
as_bytes_of_empty s h = rw (h) refl
