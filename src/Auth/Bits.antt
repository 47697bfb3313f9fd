-- ===== src/Auth/Bits.antt =====
-- The bit operations of the comparison, on bytes.
use Prim.Native.Nat.{bit_or, bit_xor}
use mcp_lock.Prelude.{
  ℕ, ◌<◌, ◌≡◌, refl, ◌↔◌, Bool, true, not, ◌&&◌, arith, nat_eq, ltb, if◌then◌else◌,
}
use mcp_lock.Prelude.Table.{passes_below, at_below}

xor_ok : ℕ → ℕ → Bool
xor_ok a b =
    (if nat_eq (bit_xor a b) 0 then nat_eq a b else not (nat_eq a b)) && ltb (bit_xor a b) 256

or_ok : ℕ → ℕ → Bool
or_ok a b =
    (if nat_eq (bit_or a b) 0 then nat_eq a 0 && nat_eq b 0 else not (nat_eq a 0 && nat_eq b 0))
    && ltb (bit_or a b) 256

xor_table : passes_below (λ a. passes_below (xor_ok a) 256) 256 ≡ true
unfolding passes_below xor_ok
xor_table = refl

or_table : passes_below (λ a. passes_below (or_ok a) 256) 256 ≡ true
unfolding passes_below or_ok
or_table = refl

xor_at : (a b : ℕ) → a < 256 → b < 256 → xor_ok a b ≡ true
xor_at a b p q =
    at_below (xor_ok a) 256 b q (at_below (λ a. passes_below (xor_ok a) 256) 256 a p xor_table)

or_at : (a b : ℕ) → a < 256 → b < 256 → or_ok a b ≡ true
or_at a b p q =
    at_below (or_ok a) 256 b q (at_below (λ a. passes_below (or_ok a) 256) 256 a p or_table)

pub bit_xor-byte :
    (a b : ℕ) → a < 256 → b < 256 → ((bit_xor a b ≡ 0) ↔ (a ≡ b)) × (bit_xor a b < 256)
unfolding xor_ok
bit_xor-byte a b p q = ground (arith, xor_at a b p q)

pub bit_or-byte :
    (a b : ℕ) → a < 256 → b < 256 → ((bit_or a b ≡ 0) ↔ ((a ≡ 0) × (b ≡ 0))) × (bit_or a b < 256)
unfolding or_ok
bit_or-byte a b p q = ground (arith, or_at a b p q)
