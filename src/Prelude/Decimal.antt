-- ===== src/Prelude/Decimal.antt =====
-- The decimal digits of a number, as `Display` prints an integer, and `str::parse` of an unsigned one.
use Prim.Native.Nat.{ℕ, zero, suc, ◌+◌, ◌-◌, ◌*◌, ◌/◌, ◌%◌}
use Prim.Native.String.{String}
use mathlib.Core.Bool.{◌&&◌}
use mathlib.Core.Option.{Option, none, some}
use mathlib.Core.List.{[], ◌∷◌}
use mcp_lock.Prelude.Tests.{if◌then◌else◌, ltb, leb, nat_eq}
use mcp_lock.Prelude.Bytes.{Bytes, as_bytes}
use mcp_lock.Prelude.Text.{◌+++◌}
use mcp_lock.Prelude.Hex.{hex_digit}

abbrev digit : ℕ → String
digit n = String.◌∷◌ (hex_digit n) ""

-- A u64 has at most 20 digits.
unfoldable pub decimal_on : ℕ → ℕ → String
decimal_on zero n = digit (n % 10)
decimal_on (suc fuel) n =
    let rest = decimal_on fuel (n / 10) in if ltb n 10 then digit n else rest +++ digit (n % 10)

unfoldable pub decimal : ℕ → String
unfolding decimal_on
decimal n = decimal_on 19 n

-- A type whose largest value is `max`: one more digit, with the check for overflow.
abbrev add_decimal : ℕ → ℕ → ℕ → Option ℕ
add_decimal max acc b =
    if leb b'0' b && leb b b'9'
    then (if ltb max (acc * 10 + (b - 48)) then none else some (acc * 10 + (b - 48)))
    else none

abbrev from_decimals : ℕ → Option ℕ → Bytes → Option ℕ
from_decimals max acc [] = acc
from_decimals max none (b ∷ bs) = none
from_decimals max (some acc) (b ∷ bs) = from_decimals max (add_decimal max acc b) bs

abbrev after_sign : ℕ → Bytes → Option ℕ
after_sign max [] = none
after_sign max (b ∷ bs) = from_decimals max (some 0) (b ∷ bs)

abbrev parse_bytes : ℕ → Bytes → Option ℕ
parse_bytes max [] = none
parse_bytes max (b ∷ bs) =
    if nat_eq b b'+' then after_sign max bs else from_decimals max (some 0) (b ∷ bs)

-- A leading '+' is accepted, but not alone.
unfoldable pub parse_unsigned : ℕ → String → Option ℕ
parse_unsigned max s = parse_bytes max (as_bytes s)
