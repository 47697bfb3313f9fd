-- ===== src/Prelude/BTreeMap.antt =====
-- `BTreeMap<String, V>`: its entries in ascending order of the keys, one for each key.
use Prim.Native.String.{String, compare}
use Prim.Native.Nat.{Ordering}
use mathlib.Core.Path.{◌≡◌, refl}
use mathlib.Core.Logic.{inl, inr}
use mathlib.Core.Bool.{Bool, true, false}
use mathlib.Core.Option.{Option, none, some}
use mathlib.Core.List.{List, [], ◌∷◌, map, Memᴰ}
use native.Mathlib.Omega.{arith}
use text.Mathlib.TextEquality.{eq_iff, path_by_compare}
use text.Mathlib.TextPositions.{compare_refl}
use mcp_lock.Prelude.Tests.{if◌then◌else◌, ◌==◌, eq_string, Bool-cases}

abbrev pub BTreeMap {ℓ} : Type ℓ → Type ℓ
BTreeMap V = List (String × V)

module _ {ℓ} {V : Type ℓ} where
  abbrev pub get : String → BTreeMap V → Option V
  get k [] = none
  get k ((j, v) ∷ m) = if j == k then some v else get k m

  abbrev pub insert : String → V → BTreeMap V → BTreeMap V
  insert k v [] = (k, v) ∷ []
  insert k v ((j, w) ∷ m) = elim (compare k j) [
    | Ordering.lt ↦ (k, v) ∷ (j, w) ∷ m
    | Ordering.eq ↦ (k, v) ∷ m
    | Ordering.gt ↦ (j, w) ∷ insert k v m
  ]

  abbrev pub remove : String → BTreeMap V → BTreeMap V
  remove k [] = []
  remove k ((j, w) ∷ m) = if j == k then remove k m else (j, w) ∷ remove k m

  abbrev pub is_some : Option V → Bool
  is_some none = false
  is_some (some v) = true

  abbrev pub contains_key : String → BTreeMap V → Bool
  contains_key k m = is_some (get k m)

  abbrev pub keys : BTreeMap V → List String
  keys = map λ e. e.0

  -- `collect()`: a later entry replaces an earlier one with its key.
  abbrev pub collect_from : BTreeMap V → List (String × V) → BTreeMap V
  collect_from m [] = m
  collect_from m ((k, v) ∷ es) = collect_from (insert k v m) es

  abbrev pub collect : List (String × V) → BTreeMap V
  collect = collect_from []

  pub get-insert :
      (k j : String) (v : V) (m : BTreeMap V)
      → get j (insert k v m) ≡ (if k == j then some v else get j m)
  get-insert k j v [] = refl
  get-insert k j v ((i, w) ∷ m) =
      ground
        (arith, eq_iff k j, eq_iff i j, path_by_compare k i, compare_refl k, get-insert k j v m)

  pub get-remove :
      (k j : String) (m : BTreeMap V) → get j (remove k m) ≡ (if k == j then none else get j m)
  get-remove k j [] = ground arith
  get-remove k j ((i, w) ∷ m) = ground (arith, eq_iff k j, eq_iff i j, eq_iff i k, get-remove k j m)

  pub get-mem : (k : String) (v : V) (m : BTreeMap V) → get k m ≡ some v → Memᴰ (k, v) m
  get-mem k v [] h = cc
  get-mem k v ((j, w) ∷ m) h = elim (Bool-cases (j == k)) [
    | inl hit ↦ Memᴰ.head (ground (arith, eq_iff j k))
    | inr miss ↦ Memᴰ.tail (get-mem k v m (ground arith))
  ]
