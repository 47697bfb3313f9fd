-- ===== src/Prelude/Sync.antt =====
-- `std::sync::Mutex`: the value, and whether a thread panicked while it held the lock.
use mathlib.Core.Path.{◌≡◌, refl, ap}
use mathlib.Core.Logic.{◌⊎◌, inl, inr}
use mcp_lock.Prelude.Tests.{Bool-cases}
use mathlib.Core.Bool.{Bool, true, false}
use mathlib.Core.Option.{Option, none, some}

pub record Mutex {ℓ} (A : Type ℓ) : Type ℓ where
  pub value : A
  pub poisoned : Bool

abbrev pub new_mutex {ℓ} : {A : Type ℓ} → A → Mutex A
new_mutex a = record { value = a; poisoned = false }

abbrev guard {ℓ} : {A : Type ℓ} → Bool → A → Option A
guard true a = none
guard false a = some a

-- `lock()`: none where the mutex is poisoned.
abbrev pub lock {ℓ} : {A : Type ℓ} → Mutex A → Option A
lock m = guard m.poisoned m.value

-- What the holder of the lock leaves.
abbrev pub store {ℓ} : {A : Type ℓ} → Mutex A → A → Mutex A
store m a = record m { value = a }

pub lock-cases {ℓ} : {A : Type ℓ} (m : Mutex A) → (lock m ≡ none) ⊎ (lock m ≡ some m.value)
lock-cases m = elim (Bool-cases m.poisoned) [
  | inl bad ↦ inl (ap (λ b. guard b m.value) bad)
  | inr fine ↦ inr (ap (λ b. guard b m.value) fine)
]

guard_again {ℓ} : {A : Type ℓ} (b : Bool) (a v : A) → guard b a ≡ some a → guard b v ≡ some v
guard_again true a v h = cc
guard_again false a v h = refl

-- A lock that was there is there for the value that its holder left.
pub lock-store {ℓ} :
    {A : Type ℓ} (m : Mutex A) (v : A) → lock m ≡ some m.value → lock (store m v) ≡ some v
lock-store m v h = guard_again m.poisoned m.value v h
