-- ===== src/Prelude/Ring.antt =====
-- A `VecDeque` with a bound: a push at the back, then pops at the front while it is too long.
use Prim.Native.Nat.{ℕ, suc, ◌-◌, ◌≤◌, ◌<◌, min}
use mathlib.Core.Path.{◌≡◌, refl, ap, sym, ◌∙◌}
use mathlib.Core.Bool.{true, false}
use mathlib.Core.List.{List, [], ◌∷◌, ◌++◌}
use native.Mathlib.Omega.{arith}
use mathlib.Core.Logic.{◌⊎◌, inl, inr}
use mcp_lock.Prelude.Tests.{if◌then◌else◌, ltb, Bool-cases}
use mcp_lock.Prelude.Lists.{length, drop, length-append}

le_or_lt : (m n : ℕ) → (m ≤ n) ⊎ (n < m)
le_or_lt m n = elim (Bool-cases (ltb n m)) [
  | inl above ↦ inr (ground arith)
  | inr below ↦ inl (ground arith)
]

module _ {ℓ} {A : Type ℓ} where
  -- `while v.len() > cap { v.pop_front(); }`.
  unfoldable pub pop_front_while : ℕ → List A → List A
  pop_front_while cap [] = []
  pop_front_while cap (x ∷ xs) =
      let rest = pop_front_while cap xs in if ltb cap (length (x ∷ xs)) then rest else x ∷ xs

  unfoldable pub push_capped : ℕ → List A → A → List A
  unfolding pop_front_while
  push_capped cap xs x = pop_front_while cap (xs ++ x ∷ [])

  -- The last n items, or all of them where there are fewer.
  abbrev pub latest : ℕ → List A → List A
  latest n xs = drop (length xs - n) xs

  latest-cons-long : (n : ℕ) (x : A) (xs : List A) → n ≤ length xs → latest n (x ∷ xs) ≡ latest n xs
  latest-cons-long n x xs h =
      let k : suc (length xs) - n ≡ suc (length xs - n) = omega arith in rw k refl

  latest-cons-short : (n : ℕ) (x : A) (xs : List A) → length xs < n → latest n (x ∷ xs) ≡ x ∷ xs
  latest-cons-short n x xs h = let k : suc (length xs) - n ≡ 0 = omega arith in rw k refl

  pub pop_front_while-latest :
      (bound : ℕ) (xs : List A) → pop_front_while bound xs ≡ latest bound xs
  unfolding pop_front_while
  pop_front_while-latest bound [] = ground arith
  pop_front_while-latest bound (x ∷ xs) = elim (le_or_lt bound (length xs)) [
    | inl long ↦
        let test : ltb bound (suc (length xs)) ≡ true = ground arith in
        rw (test, pop_front_while)
          (pop_front_while-latest bound xs ∙ sym (latest-cons-long bound x xs long))
    | inr fits ↦
        let test : ltb bound (suc (length xs)) ≡ false = ground arith in
        rw (test, pop_front_while) (sym (latest-cons-short bound x xs fits))
  ]

  latest-snoc :
      (n : ℕ) (xs : List A) (x : A) → latest n (latest n xs ++ x ∷ []) ≡ latest n (xs ++ x ∷ [])
  latest-snoc n [] x = ground arith
  latest-snoc n (y ∷ xs) x = elim (le_or_lt n (length xs)) [
    | inl long ↦
        let longer : n ≤ length (xs ++ x ∷ []) = omega (arith, long, length-append xs (x ∷ [])) in
        ap (λ l. latest n (l ++ x ∷ [])) (latest-cons-long n y xs long)
        ∙ latest-snoc n xs x
        ∙ sym (latest-cons-long n y (xs ++ x ∷ []) longer)
    | inr fits ↦ ap (λ l. latest n (l ++ x ∷ [])) (latest-cons-short n y xs fits)
  ]

  -- One more item in a ring that holds the latest ones.
  pub push_capped-latest :
      (n : ℕ) (xs : List A) (x : A) → push_capped n (latest n xs) x ≡ latest n (xs ++ x ∷ [])
  unfolding push_capped
  push_capped-latest n xs x = pop_front_while-latest n (latest n xs ++ x ∷ []) ∙ latest-snoc n xs x

  -- The latest of the latest.
  pub latest-latest : (m n : ℕ) (xs : List A) → latest m (latest n xs) ≡ latest (min m n) xs
  latest-latest m n [] = ground arith
  latest-latest m n (y ∷ xs) = elim (le_or_lt n (length xs)) [
    | inl long ↦
        ap (latest m) (latest-cons-long n y xs long)
        ∙ latest-latest m n xs
        ∙ sym (latest-cons-long (min m n) y xs (omega arith))
    | inr fits ↦
        let k : suc (length xs) - m ≡ suc (length xs) - min m n = omega arith in
        ap (latest m) (latest-cons-short n y xs fits) ∙ ap (λ d. drop d (y ∷ xs)) k
  ]
