-- ===== src/Prelude/Results.antt =====
-- `Result`, and an early return.
use mathlib.Core.Bool.{Bool, true, false}
use mathlib.Core.Option.{Option, none, some}
use mathlib.Core.Path.{◌≡◌, refl}
use mathlib.Core.Logic.{◌⊎◌, inl, inr}

pub data Result {ℓ κ} (A : Type ℓ) (E : Type κ) : Type (ℓ ⊔ κ) where
  ok : A → Result A E
  err : E → Result A E

infixl 5 ◌>>=◌ ◌>>◌
abbrev pub ◌>>=◌ {ℓ κ μ} :
    {A : Type ℓ} {B : Type κ} {E : Type μ} → Result A E → (A → Result B E) → Result B E
ok a >>= f = f a
err e >>= f = err e

abbrev pub ◌>>◌ {κ μ} : {B : Type κ} {E : Type μ} → Result (Unit {0}) E → Result B E → Result B E
m >> k = m >>= λ _. k

-- `if bad { return Err(e) }`.
abbrev pub reject_if {μ} : {E : Type μ} → Bool → E → Result (Unit {0}) E
reject_if true e = err e
reject_if false e = ok tt

abbrev pub ok_or {ℓ μ} : {A : Type ℓ} {E : Type μ} → Option A → E → Result A E
ok_or none e = err e
ok_or (some a) e = ok a

abbrev pub map_err {ℓ κ μ} :
    {A : Type ℓ} {D : Type κ} {E : Type μ} → (D → E) → Result A D → Result A E
map_err f (ok a) = ok a
map_err f (err d) = err (f d)

-- The end of a write, and what follows it.
abbrev pub then_write {ℓ μ} :
    {W : Type ℓ} {E : Type μ}
    → Result (Unit {0}) E × W
    → (W → Result (Unit {0}) E × W)
    → Result (Unit {0}) E × W
then_write (ok u, w) k = k w
then_write (err e, w) k = (err e, w)

pub Result-cases {ℓ μ} :
    {A : Type ℓ} {E : Type μ} (r : Result A E) → ((a : A) × (r ≡ ok a)) ⊎ ((e : E) × (r ≡ err e))
Result-cases (ok a) = inl (a, refl)
Result-cases (err e) = inr (e, refl)
