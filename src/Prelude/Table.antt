-- ===== src/Prelude/Table.antt =====
-- Facts about small numbers, by evaluation of every case.
use Prim.Native.Nat.{ℕ, zero, suc, ◌<◌}
use mathlib.Core.Path.{◌≡◌}
use mathlib.Core.Bool.{Bool, true, ◌&&◌}
use native.Mathlib.Omega.{arith}

-- The test passes at every number below the bound.
unfoldable pub passes_below : (ℕ → Bool) → ℕ → Bool
passes_below test zero = true
passes_below test (suc bound) = test bound && passes_below test bound

pub at_below :
    (test : ℕ → Bool) (bound k : ℕ) → k < bound → passes_below test bound ≡ true → test k ≡ true
unfolding passes_below
at_below test zero k small passed = absurd (omega arith)
at_below test (suc bound) k small passed = ground (arith, at_below test bound k)
