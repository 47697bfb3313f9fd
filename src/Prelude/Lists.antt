-- ===== src/Prelude/Lists.antt =====
-- Vectors: the iterator and `Vec` methods that the source calls, over the native numbers.
use Prim.Native.Nat.{ℕ, zero, suc, ◌+◌, ◌-◌, ◌≤◌}
use mathlib.Core.Path.{◌≡◌, refl, ap}
use mathlib.Core.Bool.{Bool, false, ◌||◌}
use mathlib.Core.Option.{Option, none, some}
use mathlib.Core.List.{List, [], ◌∷◌, ◌++◌, Perm}
use mathlib.Core.List.Perm
use native.Mathlib.Omega.{arith}
use mcp_lock.Prelude.Tests.{if◌then◌else◌}

abbrev pub next : Option ℕ → Option ℕ
next none = none
next (some i) = some (suc i)

module _ {ℓ} {A : Type ℓ} where
  abbrev pub length : List A → ℕ
  length [] = 0
  length (x ∷ xs) = suc (length xs)

  abbrev pub get_elem? : List A → ℕ → Option A
  get_elem? [] i = none
  get_elem? (x ∷ xs) zero = some x
  get_elem? (x ∷ xs) (suc i) = get_elem? xs i

  abbrev pub set : List A → ℕ → A → List A
  set [] i v = []
  set (x ∷ xs) zero v = v ∷ xs
  set (x ∷ xs) (suc i) v = x ∷ set xs i v

  abbrev pub take : ℕ → List A → List A
  take zero xs = []
  take (suc n) [] = []
  take (suc n) (x ∷ xs) = x ∷ take n xs

  abbrev pub drop : ℕ → List A → List A
  drop zero xs = xs
  drop (suc n) [] = []
  drop (suc n) (x ∷ xs) = drop n xs

  -- `Iterator::any`, `filter` (and `Vec::retain`), `find` and `position`.
  abbrev pub any : (A → Bool) → List A → Bool
  any p [] = false
  any p (x ∷ xs) = p x || any p xs

  abbrev pub retain : (A → Bool) → List A → List A
  retain p [] = []
  retain p (x ∷ xs) = if p x then x ∷ retain p xs else retain p xs

  abbrev pub find : (A → Bool) → List A → Option A
  find p [] = none
  find p (x ∷ xs) = if p x then some x else find p xs

  abbrev pub position : (A → Bool) → List A → Option ℕ
  position p [] = none
  position p (x ∷ xs) = if p x then some 0 else next (position p xs)

  abbrev pub last : A → List A → A
  last x [] = x
  last x (y ∷ ys) = last y ys

  abbrev pub drop_last : List A → List A
  drop_last [] = []
  drop_last (x ∷ []) = []
  drop_last (x ∷ y ∷ ys) = x ∷ drop_last (y ∷ ys)

  -- `Vec::swap_remove`: the last item takes the place of item i. The item that it returns is
  -- `get_elem?` at i.
  unfoldable pub swap_remove : List A → ℕ → List A
  swap_remove [] i = []
  swap_remove (x ∷ xs) i = drop_last (set (x ∷ xs) i (last x xs))

  abbrev pub All {κ} : (A → Type κ) → List A → Type κ
  All P [] = Unit
  All P (x ∷ xs) = P x × All P xs

  abbrev pub count_if : (A → Bool) → List A → ℕ
  count_if p [] = 0
  count_if p (x ∷ xs) = if p x then suc (count_if p xs) else count_if p xs

module _ {ℓ} {A : Type ℓ} where
  pub length-append : (xs ys : List A) → length (xs ++ ys) ≡ length xs + length ys
  length-append [] ys = omega arith
  length-append (x ∷ xs) ys = omega (arith, length-append xs ys)

  pub length-retain-le : (p : A → Bool) (xs : List A) → length (retain p xs) ≤ length xs
  length-retain-le p [] = omega arith
  length-retain-le p (x ∷ xs) = ground (arith, length-retain-le p xs)

  pub length-drop : (n : ℕ) (xs : List A) → length (drop n xs) ≡ length xs - n
  length-drop zero xs = omega arith
  length-drop (suc n) [] = omega arith
  length-drop (suc n) (x ∷ xs) = omega (arith, length-drop n xs)

  pub length-set : (xs : List A) (i : ℕ) (v : A) → length (set xs i v) ≡ length xs
  length-set [] i v = refl
  length-set (x ∷ xs) zero v = refl
  length-set (x ∷ xs) (suc i) v = ap suc (length-set xs i v)

  length-drop_last : (xs : List A) → length (drop_last xs) ≡ length xs - 1
  length-drop_last [] = omega arith
  length-drop_last (x ∷ []) = omega arith
  length-drop_last (x ∷ y ∷ ys) = omega (arith, length-drop_last (y ∷ ys))

  pub length-swap_remove : (xs : List A) (i : ℕ) → length (swap_remove xs i) ≡ length xs - 1
  unfolding swap_remove
  length-swap_remove [] i = omega arith
  length-swap_remove (x ∷ xs) i =
      omega
        (arith, length-drop_last (set (x ∷ xs) i (last x xs)), length-set (x ∷ xs) i (last x xs))

  last-perm : (x : A) (xs : List A) → Perm (x ∷ xs) (last x xs ∷ drop_last (x ∷ xs))
  last-perm x [] = Perm.refl _
  last-perm x (y ∷ ys) = Perm.trans (Perm.cons x (last-perm y ys)) (Perm.swap _ x _)

  -- Only the item at i is taken out: the others stay, in another order.
  pub swap_remove-perm :
      (xs : List A) (i : ℕ) (v : A) → get_elem? xs i ≡ some v → Perm xs (v ∷ swap_remove xs i)
  unfolding swap_remove
  swap_remove-perm [] i v h = cc
  swap_remove-perm (x ∷ []) zero v h = Perm.cons' (ground arith) (Perm.refl _)
  swap_remove-perm (x ∷ y ∷ ys) zero v h = Perm.cons' (ground arith) (last-perm y ys)
  swap_remove-perm (x ∷ []) (suc i) v h = cc
  swap_remove-perm (x ∷ y ∷ ys) (suc zero) v h =
      Perm.trans (Perm.cons x (swap_remove-perm (y ∷ ys) zero v h)) (Perm.swap v x _)
  swap_remove-perm (x ∷ y ∷ ys) (suc (suc i)) v h =
      Perm.trans (Perm.cons x (swap_remove-perm (y ∷ ys) (suc i) v h)) (Perm.swap v x _)
