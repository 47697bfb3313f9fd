-- ===== src/Prelude/Hex.antt =====
-- Hexadecimal text: `{b:02x}`, `u8::from_str_radix(_, 16)`, `str::get` and `char::to_digit(16)`.
pub mod RoundTrip
use Prim.Native.Char.{Char, code}
use Prim.Native.Nat.{ℕ, zero, suc, ◌+◌, ◌-◌, ◌*◌, ◌/◌, ◌%◌, ◌≤◌, ◌<◌}
use Prim.Native.String.{String}
use mathlib.Core.Path.{◌≡◌, refl, ap, sym, ◌∙◌}
use mathlib.Core.Logic.{inl, inr, ◌≢◌}
use mathlib.Core.Bool.{Bool, true, false, not, ◌&&◌, ◌||◌}
use mathlib.Core.Option.{Option, none, some}
use mathlib.Core.List.{List, [], ◌∷◌, ◌++◌, map}
use native.Mathlib.Omega.{arith}
use mcp_lock.Prelude.Tests.{if◌then◌else◌, ltb, leb, nat_eq, nat_eq_iff}
use mcp_lock.Prelude.Lists.{length, take, drop, length-drop, All}
use mcp_lock.Prelude.Bytes.{Bytes, as_bytes, utf8}

-- The digit of a number below 16.
abbrev pub pick : List Char → ℕ → Char
pick [] n = "f"
pick (c ∷ cs) zero = c
pick (c ∷ cs) (suc n) = pick cs n

abbrev pub hex_digit : ℕ → Char
hex_digit =
    pick
      ("0" ∷ "1" ∷ "2" ∷ "3" ∷ "4" ∷ "5" ∷ "6" ∷ "7" ∷ "8" ∷ "9" ∷ "a" ∷ "b" ∷ "c" ∷ "d" ∷ "e" ∷ [])

unfoldable pub to_hex : Bytes → String
to_hex [] = ""
to_hex (b ∷ bs) = String.◌∷◌ (hex_digit (b / 16)) (String.◌∷◌ (hex_digit (b % 16)) (to_hex bs))

unfoldable pub to_digit : ℕ → Option ℕ
to_digit c =
    if leb b'0' c && leb c b'9'
    then some (c - 48)
    else if leb b'a' c && leb c b'f'
    then some (c - 87)
    else if leb b'A' c && leb c b'F'
    then some (c - 55)
    else none

-- The digits, with the overflow check of u8.
abbrev add_digit : ℕ → Option ℕ → Option ℕ
add_digit acc none = none
add_digit acc (some d) = if ltb 255 (acc * 16 + d) then none else some (acc * 16 + d)

abbrev from_digits : Option ℕ → Bytes → Option ℕ
from_digits acc [] = acc
from_digits none (b ∷ bs) = none
from_digits (some acc) (b ∷ bs) = from_digits (add_digit acc (to_digit b)) bs

-- A leading '+' is accepted, but not alone.
abbrev after_plus : Bytes → Option ℕ
after_plus [] = none
after_plus (b ∷ bs) = from_digits (some 0) (b ∷ bs)

unfoldable pub from_str_radix : Bytes → Option ℕ
unfolding to_digit
from_str_radix [] = none
from_str_radix (b ∷ bs) = if nat_eq b b'+' then after_plus bs else from_digits (some 0) (b ∷ bs)

-- `str::get(i..j)`: none out of bounds, and none off a character boundary.
abbrev is_boundary : Bytes → ℕ → Bytes → Bool
is_boundary s i [] = nat_eq i (length s)
is_boundary s i (b ∷ bs) = not (leb 0x80 b && ltb b 0xc0)

abbrev pub str_get : Bytes → ℕ → ℕ → Option Bytes
str_get s i j =
    if leb i j && is_boundary s i (drop i s) && is_boundary s j (drop j s)
    then some (take (j - i) (drop i s))
    else none

abbrev cons? : Option ℕ → Option Bytes → Option Bytes
cons? none r = none
cons? (some b) none = none
cons? (some b) (some bs) = some (b ∷ bs)

abbrev parse_pair : Option Bytes → Option ℕ
parse_pair none = none
parse_pair (some s) = from_str_radix s

-- The loop that fills an array of n bytes from the pairs of digits of a text, from pair i on.
unfoldable pub parse_pairs : ℕ → ℕ → Bytes → Option Bytes
unfolding from_str_radix
parse_pairs zero i s = some []
parse_pairs (suc n) i s =
    cons? (parse_pair (str_get s (i * 2) (i * 2 + 2))) (parse_pairs n (suc i) s)

-- An array of n bytes from a text of exactly 2 n hexadecimal digits.
unfoldable pub from_hex : ℕ → String → Option Bytes
unfolding parse_pairs
from_hex n s = if nat_eq (length (as_bytes s)) (n * 2) then parse_pairs n 0 (as_bytes s) else none
