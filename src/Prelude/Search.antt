-- ===== src/Prelude/Search.antt =====
-- What the searches over a vector find.
use mathlib.Core.List.Memᴰ as MemD
use mathlib.Core.List.{Permᴰ}
use mathlib.Core.Logic.{∥∥₁_elim}
use native.Mathlib.Nat.{ℕ_set}
use mcp_lock.Prelude.{
  ℕ, zero, suc, set, last, drop_last, ◌≡◌, refl, ◌∙◌, inl, inr, Bool, true, none, some, List, [],
  ◌∷◌, Memᴰ, Perm, arith, Bool-cases, Option-cases, get_elem?, any, retain, find, position,
  swap_remove, swap_remove-perm, count_if, All, subst, sym, ◌++◌, ◌⊎◌,
}

module _ {ℓ} {A : Type ℓ} (p : A → Bool) where
  pub find-eq-some : (xs : List A) (x : A) → find p xs ≡ some x → Memᴰ x xs × (p x ≡ true)
  find-eq-some [] x h = cc
  find-eq-some (y ∷ ys) x h = elim (Bool-cases (p y)) [
    | inl hit ↦ let e : y ≡ x = ground arith in (Memᴰ.head (ground arith), rw (← e) hit)
    | inr miss ↦ let r = find-eq-some ys x (ground arith) in (Memᴰ.tail r.0, r.1)
  ]

  pub position-eq-some :
      (xs : List A) (i : ℕ)
      → position p xs ≡ some i
      → (x : A) × (get_elem? xs i ≡ some x) × (p x ≡ true)
  position-eq-some [] i h = cc
  position-eq-some (y ∷ ys) i h = elim (Bool-cases (p y)) [
    | inl hit ↦ let e : i ≡ 0 = ground arith in (y, rw e refl, hit)
    | inr miss ↦ elim (Option-cases (position p ys)) [
      | inl gone ↦ absurd (ground arith)
      | inr (j, at_j) ↦
          let e : i ≡ suc j = ground arith in
          let r = position-eq-some ys j at_j in (r.0, rw e r.1, r.2)
    ]
  ]

  pub position-eq-none : (xs : List A) → position p xs ≡ none → count_if p xs ≡ 0
  position-eq-none [] h = refl
  position-eq-none (y ∷ ys) h = ground (arith, position-eq-none ys)

  pub position_of_count-zero : (xs : List A) → count_if p xs ≡ 0 → position p xs ≡ none
  position_of_count-zero [] h = refl
  position_of_count-zero (y ∷ ys) h = ground (arith, position_of_count-zero ys)

  pub any-eq-true : (xs : List A) → any p xs ≡ true → (x : A) × Memᴰ x xs × (p x ≡ true)
  any-eq-true [] h = cc
  any-eq-true (y ∷ ys) h = elim (Bool-cases (p y)) [
    | inl hit ↦ (y, Memᴰ.head refl, hit)
    | inr miss ↦ let r = any-eq-true ys (ground arith) in (r.0, Memᴰ.tail r.1, r.2)
  ]

  pub any_of_mem : (xs : List A) (x : A) → Memᴰ x xs → p x ≡ true → any p xs ≡ true
  any_of_mem [] x m h = elim m [ ]
  any_of_mem (y ∷ ys) x (Memᴰ.head e) h = rw (← e, h)
  any_of_mem (y ∷ ys) x (Memᴰ.tail m) h = ground (arith, any_of_mem ys x m h)

  pub mem-retain : (xs : List A) (x : A) → Memᴰ x (retain p xs) → Memᴰ x xs × (p x ≡ true)
  mem-retain [] x m = elim m [ ]
  mem-retain (y ∷ ys) x m = elim (Bool-cases (p y)) [
    | inl hit ↦ elim (MemD.cases_cons (rw (hit, retain) at m)) [
      | inl e ↦ (Memᴰ.head e, rw e hit)
      | inr t ↦ let r = mem-retain ys x t in (Memᴰ.tail r.0, r.1)
    ]
    | inr miss ↦ let r = mem-retain ys x (rw miss at m) in (Memᴰ.tail r.0, r.1)
  ]

  pub mem-retain_of : (xs : List A) (x : A) → Memᴰ x xs → p x ≡ true → Memᴰ x (retain p xs)
  mem-retain_of [] x m h = elim m [ ]
  mem-retain_of (y ∷ ys) x (Memᴰ.head e) h = let hy : p y ≡ true = rw e at h in rw hy (Memᴰ.head e)
  mem-retain_of (y ∷ ys) x (Memᴰ.tail m) h = elim (Bool-cases (p y)) [
    | inl hit ↦ rw hit (Memᴰ.tail (mem-retain_of ys x m h))
    | inr miss ↦ rw miss (mem-retain_of ys x m h)
  ]

  count_if-Permᴰ : {xs ys : List A} → Permᴰ xs ys → count_if p xs ≡ count_if p ys
  count_if-Permᴰ Permᴰ.nil = refl
  count_if-Permᴰ (Permᴰ.cons e q) = rw (e, count_if-Permᴰ q)
  count_if-Permᴰ (Permᴰ.swap {a} {b} e f) = rw (← e, ← f) (ground arith)
  count_if-Permᴰ (Permᴰ.trans q r) = count_if-Permᴰ q ∙ count_if-Permᴰ r

  pub count_if-Perm : {xs ys : List A} → Perm xs ys → count_if p xs ≡ count_if p ys
  count_if-Perm q = ∥∥₁_elim q (ℕ_set _ _) count_if-Permᴰ

  -- Taking out the item that a search found lowers the count by one.
  pub count_if-swap_remove :
      (xs : List A) (i : ℕ)
      → position p xs ≡ some i
      → count_if p xs ≡ suc (count_if p (swap_remove xs i))
  count_if-swap_remove xs i h =
      let r = position-eq-some xs i h in count_if-Perm (swap_remove-perm xs i r.0 r.1) ∙ rw r.2 refl

  -- The item at the position found is the one that `find` gives.
  pub get_elem?-position :
      (xs : List A) (i : ℕ) → position p xs ≡ some i → get_elem? xs i ≡ find p xs
  get_elem?-position [] i h = cc
  get_elem?-position (y ∷ ys) i h = elim (Bool-cases (p y)) [
    | inl hit ↦ let e : i ≡ 0 = ground arith in rw (e, hit) refl
    | inr miss ↦ elim (Option-cases (position p ys)) [
      | inl gone ↦ absurd (ground arith)
      | inr (j, at_j) ↦
          let e : i ≡ suc j = ground arith in rw (e, miss) (get_elem?-position ys j at_j)
    ]
  ]

  pub find-position-none : (xs : List A) → position p xs ≡ none → find p xs ≡ none
  find-position-none [] h = refl
  find-position-none (y ∷ ys) h = ground (arith, find-position-none ys)

pub All_at {ℓ κ} : {A : Type ℓ} (P : A → Type κ) (xs : List A) (x : A) → All P xs → Memᴰ x xs → P x
All_at P [] x h m = elim m [ ]
All_at P (y ∷ ys) x h (Memᴰ.head e) = subst P (sym e) h.0
All_at P (y ∷ ys) x h (Memᴰ.tail m) = All_at P ys x h.1 m

module _ {ℓ} {A : Type ℓ} where
  pub mem-append : (xs ys : List A) (x : A) → Memᴰ x (xs ++ ys) → Memᴰ x xs ⊎ Memᴰ x ys
  mem-append [] ys x m = inr m
  mem-append (y ∷ xs) ys x (Memᴰ.head e) = inl (Memᴰ.head e)
  mem-append (y ∷ xs) ys x (Memᴰ.tail m) = elim (mem-append xs ys x m) [
    | inl l ↦ inl (Memᴰ.tail l)
    | inr r ↦ inr r
  ]

  pub mem-append_left : (xs ys : List A) (x : A) → Memᴰ x xs → Memᴰ x (xs ++ ys)
  mem-append_left [] ys x m = elim m [ ]
  mem-append_left (y ∷ xs) ys x (Memᴰ.head e) = Memᴰ.head e
  mem-append_left (y ∷ xs) ys x (Memᴰ.tail m) = Memᴰ.tail (mem-append_left xs ys x m)

  pub mem-append_right : (xs ys : List A) (x : A) → Memᴰ x ys → Memᴰ x (xs ++ ys)
  mem-append_right [] ys x m = m
  mem-append_right (y ∷ xs) ys x m = Memᴰ.tail (mem-append_right xs ys x m)

module _ {ℓ} {A : Type ℓ} where
  mem-drop_last : (xs : List A) (x : A) → Memᴰ x (drop_last xs) → Memᴰ x xs
  mem-drop_last [] x m = m
  mem-drop_last (y ∷ []) x m = elim m [ ]
  mem-drop_last (y ∷ z ∷ zs) x m = elim (MemD.cases_cons m) [
    | inl e ↦ Memᴰ.head e
    | inr rest ↦ Memᴰ.tail (mem-drop_last (z ∷ zs) x rest)
  ]

  mem-set : (xs : List A) (i : ℕ) (v x : A) → Memᴰ x (set xs i v) → (x ≡ v) ⊎ Memᴰ x xs
  mem-set [] i v x m = inr m
  mem-set (y ∷ ys) zero v x m = elim (MemD.cases_cons m) [
    | inl e ↦ inl e
    | inr rest ↦ inr (Memᴰ.tail rest)
  ]
  mem-set (y ∷ ys) (suc i) v x m = elim (MemD.cases_cons m) [
    | inl e ↦ inr (Memᴰ.head e)
    | inr rest ↦ elim (mem-set ys i v x rest) [ inl e ↦ inl e | inr n ↦ inr (Memᴰ.tail n) ]
  ]

  mem-last : (x : A) (xs : List A) → Memᴰ (last x xs) (x ∷ xs)
  mem-last x [] = Memᴰ.head refl
  mem-last x (y ∷ ys) = Memᴰ.tail (mem-last y ys)

  -- What is left once an item is taken out was there.
  pub mem-swap_remove : (xs : List A) (i : ℕ) (x : A) → Memᴰ x (swap_remove xs i) → Memᴰ x xs
  unfolding swap_remove
  mem-swap_remove [] i x m = m
  mem-swap_remove (y ∷ ys) i x m =
      elim (mem-set (y ∷ ys) i (last y ys) x (mem-drop_last (set (y ∷ ys) i (last y ys)) x m)) [
        | inl e ↦ subst (λ z. Memᴰ z (y ∷ ys)) (sym e) (mem-last y ys)
        | inr n ↦ n
      ]
