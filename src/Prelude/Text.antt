-- ===== src/Prelude/Text.antt =====
-- Text: the `str` methods that the source calls, the order of texts, and `sort`.
use Prim.Native.Nat.{ℕ, compare as compare_nat, Ordering}
use Prim.Native.Char.{Char, code}
use Prim.Native.String
use Prim.Native.String.compare
use Prim.Native.String.append
use Prim.Native.String.{String, compare, then as and_then}
use mathlib.Core.Path.{◌≡◌, refl, ap, ◌∙◌}
use mathlib.Core.Logic.{inl, inr, ◌↔◌}
use mathlib.Core.Bool.{Bool, true, false, ◌||◌}
use mathlib.Core.Option.{Option, none, some}
use mathlib.Core.List.{List, [], ◌∷◌, Memᴰ, Perm}
use mathlib.Core.List.Perm
use native.Mathlib.Omega.{arith}
use text.Mathlib.TextEquality.{Char-path}
use text.Mathlib.TextLemmas.{nil-append, cons-append}
use mcp_lock.Prelude.Tests.{if◌then◌else◌, nat_eq, nat_eq_iff, Bool-cases, Option-cases}
use mcp_lock.Prelude.Lists.{All}

-- `a <= b` on `String`, which compares bytes: the order of UTF-8 bytes is that of code points.
abbrev pub is_le : String → String → Bool
is_le a b = elim (compare a b) [ Ordering.gt ↦ false | _ ↦ true ]

flip : Ordering → Ordering
flip Ordering.lt = Ordering.gt
flip Ordering.eq = Ordering.eq
flip Ordering.gt = Ordering.lt

flip-then : (o r : Ordering) → flip (and_then o r) ≡ and_then (flip o) (flip r)
unfolding flip
flip-then Ordering.lt r = refl
flip-then Ordering.eq r = refl
flip-then Ordering.gt r = refl

flip-compare_nat : (m n : ℕ) → flip (compare_nat m n) ≡ compare_nat n m
unfolding flip
flip-compare_nat m n = ground arith

flip-compare : (s t : String) → flip (compare s t) ≡ compare t s
unfolding flip
flip-compare String.[] String.[] = rw compare.nil-nil
flip-compare String.[] (String.◌∷◌ d t) = rw (compare.nil-cons, compare.cons-nil)
flip-compare (String.◌∷◌ c s) String.[] = rw (compare.cons-nil, compare.nil-cons)
flip-compare (String.◌∷◌ c s) (String.◌∷◌ d t) =
    rw (compare.cons-cons c d s t, compare.cons-cons d c t s)
      (flip-then (compare_nat (code c) (code d)) (compare s t)
        ∙ rw (flip-compare_nat (code c) (code d), flip-compare s t))

-- The texts are in ascending order.
abbrev pub IsSorted : List String → Type 0
IsSorted [] = Unit
IsSorted (x ∷ xs) = All (λ y. is_le x y ≡ true) xs × IsSorted xs

is_le-total : (s t : String) → is_le s t ≡ false → is_le t s ≡ true
unfolding flip
is_le-total s t h = ground (arith, flip-compare s t)

is_le_trans : (s t u : String) → is_le s t ≡ true → is_le t u ≡ true → is_le s u ≡ true
is_le_trans String.[] t String.[] h k = refl
is_le_trans String.[] t (String.◌∷◌ e u) h k = ground (arith, compare.nil-cons e u)
is_le_trans (String.◌∷◌ c s) String.[] u h k = absurd (ground (arith, compare.cons-nil c s))
is_le_trans (String.◌∷◌ c s) (String.◌∷◌ d t) String.[] h k =
    absurd (ground (arith, compare.cons-nil d t))
is_le_trans (String.◌∷◌ c s) (String.◌∷◌ d t) (String.◌∷◌ e u) h k = ground (
  arith,
  compare.cons-cons c d s t,
  compare.cons-cons d e t u,
  compare.cons-cons c e s u,
  is_le_trans s t u,
)

-- `Vec::sort` on strings. Every stable sort gives this result.
abbrev pub insert_sorted : String → List String → List String
insert_sorted x [] = x ∷ []
insert_sorted x (y ∷ ys) = if is_le x y then x ∷ y ∷ ys else y ∷ insert_sorted x ys

unfoldable pub sort : List String → List String
sort [] = []
sort (x ∷ xs) = insert_sorted x (sort xs)

All-is_le :
    (x y : String) (ys : List String)
    → is_le x y ≡ true
    → All (λ z. is_le y z ≡ true) ys
    → All (λ z. is_le x z ≡ true) ys
All-is_le x y [] h a = tt
All-is_le x y (z ∷ zs) h a = (is_le_trans x y z h a.0, All-is_le x y zs h a.1)

All-insert_sorted :
    (w x : String) (ys : List String)
    → is_le w x ≡ true
    → All (λ z. is_le w z ≡ true) ys
    → All (λ z. is_le w z ≡ true) (insert_sorted x ys)
All-insert_sorted w x [] h a = (h, tt)
All-insert_sorted w x (y ∷ ys) h a = ground (arith, All-insert_sorted w x ys h a.1)

insert_sorted-IsSorted :
    (x : String) (ys : List String) → IsSorted ys → IsSorted (insert_sorted x ys)
insert_sorted-IsSorted x [] s = (tt, tt)
insert_sorted-IsSorted x (y ∷ ys) s = elim (Bool-cases (is_le x y)) [
  | inl below ↦ rw below ((below, All-is_le x y ys below s.0), s)
  | inr above ↦
      rw above
        (All-insert_sorted y x ys (is_le-total x y above) s.0, insert_sorted-IsSorted x ys s.1)
]

pub sort-IsSorted : (xs : List String) → IsSorted (sort xs)
unfolding sort
sort-IsSorted [] = tt
sort-IsSorted (x ∷ xs) = insert_sorted-IsSorted x (sort xs) (sort-IsSorted xs)

insert_sorted-perm : (x : String) (ys : List String) → Perm (x ∷ ys) (insert_sorted x ys)
insert_sorted-perm x [] = Perm.refl _
insert_sorted-perm x (y ∷ ys) = elim (Bool-cases (is_le x y)) [
  | inl below ↦ rw below (Perm.refl _)
  | inr above ↦ rw above (Perm.trans (Perm.swap _ _ _) (Perm.cons y (insert_sorted-perm x ys)))
]

pub sort-perm : (xs : List String) → Perm xs (sort xs)
unfolding sort
sort-perm [] = Perm.refl _
sort-perm (x ∷ xs) = Perm.trans (Perm.cons x (sort-perm xs)) (insert_sorted-perm x (sort xs))

mem-cons_map :
    {z x : String} {xs ys : List String}
    → (Memᴰ z xs → Memᴰ z ys)
    → Memᴰ z (x ∷ xs)
    → Memᴰ z (x ∷ ys)
mem-cons_map f (Memᴰ.head e) = Memᴰ.head e
mem-cons_map f (Memᴰ.tail m) = Memᴰ.tail (f m)

mem-cons_swap : {z v w : String} {ws : List String} → Memᴰ z (v ∷ w ∷ ws) → Memᴰ z (w ∷ v ∷ ws)
mem-cons_swap (Memᴰ.head e) = Memᴰ.tail (Memᴰ.head e)
mem-cons_swap (Memᴰ.tail (Memᴰ.head e)) = Memᴰ.head e
mem-cons_swap (Memᴰ.tail (Memᴰ.tail m)) = Memᴰ.tail (Memᴰ.tail m)

mem-below :
    (x z y : String) {ys zs : List String}
    → Memᴰ z zs ↔ Memᴰ z (x ∷ ys)
    → Memᴰ z (y ∷ zs) ↔ Memᴰ z (x ∷ y ∷ ys)
mem-below x z y e =
    (λ m. mem-cons_swap (mem-cons_map e.0 m), λ m. mem-cons_map e.1 (mem-cons_swap m))

mem-insert_sorted :
    (x z : String) (ys : List String) → Memᴰ z (insert_sorted x ys) ↔ Memᴰ z (x ∷ ys)
mem-insert_sorted x z [] = (λ m. m, λ m. m)
mem-insert_sorted x z (y ∷ ys) = elim (Bool-cases (is_le x y)) [
  | inl below ↦ rw below (λ m. m, λ m. m)
  | inr above ↦ rw above (mem-below x z y (mem-insert_sorted x z ys))
]

pub mem-sort : (z : String) (xs : List String) → Memᴰ z (sort xs) ↔ Memᴰ z xs
unfolding sort
mem-sort z [] = (λ m. m, λ m. m)
mem-sort z (x ∷ xs) =
    let (to, from) = mem-insert_sorted x z (sort xs) in
    let (sorted, unsorted) = mem-sort z xs in
    (λ m. mem-cons_map sorted (to m), λ m. from (mem-cons_map unsorted m))

-- `str::contains(char)` and `str::split_once(char)`.
unfoldable pub contains : String → ℕ → Bool
contains String.[] sep = false
contains (String.◌∷◌ c s) sep = nat_eq (code c) sep || contains s sep

abbrev prefixed : Char → Option (String × String) → Option (String × String)
prefixed c none = none
prefixed c (some (a, b)) = some (String.◌∷◌ c a, b)

unfoldable pub split_once : String → ℕ → Option (String × String)
split_once String.[] sep = none
split_once (String.◌∷◌ c s) sep =
    if nat_eq (code c) sep then some ("", s) else prefixed c (split_once s sep)

-- `format!("{a}{b}")`.
infixr 65 ◌+++◌
abbrev pub ◌+++◌ : String → String → String
◌+++◌ = String.◌++◌

-- `join`.
abbrev pub join : String → List String → String
join sep [] = ""
join sep (s ∷ []) = s
join sep (s ∷ t ∷ ts) = s +++ (sep +++ join sep (t ∷ ts))

-- A text is split at the first separator.
pub split_once-append :
    (a b : String) → contains a b'.' ≡ false → split_once (a +++ ("." +++ b)) b'.' ≡ some (a, b)
unfolding contains split_once
split_once-append String.[] b h =
    rw (nil-append, cons-append, nil-append, split_once) (ground arith)
split_once-append (String.◌∷◌ c a) b h =
    rw (cons-append, split_once) (ground (arith, split_once-append a b))

pub split_once-eq-some :
    (s a b : String)
    → split_once s b'.' ≡ some (a, b)
    → (s ≡ a +++ ("." +++ b)) × (contains a b'.' ≡ false)
unfolding contains split_once
split_once-eq-some String.[] a b h = cc
split_once-eq-some (String.◌∷◌ c s) a b h = elim (Bool-cases (nat_eq (code c) b'.')) [
  | inl hit ↦
      let ea : a ≡ "" = ground arith in
      let eb : b ≡ s = ground arith in
      rw (ea, eb, nil-append, cons-append, nil-append)
        (ap (λ d. String.◌∷◌ d s) (Char-path c "." ((nat_eq_iff _ _).0 hit)), refl)
  | inr miss ↦ elim (Option-cases (split_once s b'.')) [
    | inl whole ↦ absurd (ground arith)
    | inr ((a', b'), cut) ↦
        let ea : a ≡ String.◌∷◌ c a' = ground arith in
        let eb : b ≡ b' = ground arith in
        let ih = split_once-eq-some s a' b' cut in
        rw (ea, eb, cons-append) (ap (String.◌∷◌ c) ih.0, ground (arith, ih.1))
  ]
]
