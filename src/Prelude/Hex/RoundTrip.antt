-- ===== src/Prelude/Hex/RoundTrip.antt =====
-- A text that `to_hex` prints is read back by `from_hex`.
use Prim.Native.Char.{code}
use Prim.Native.Nat.{ℕ, zero, suc, ◌+◌, ◌-◌, ◌*◌, ◌/◌, ◌%◌, ◌<◌}
use mathlib.Core.Path.{◌≡◌, refl, ap, sym, ◌∙◌}
use mathlib.Core.Logic.{◌≢◌}
use mathlib.Core.Bool.{Bool, true, false, not, ◌&&◌}
use mathlib.Core.Option.{Option, none, some}
use mathlib.Core.List.{[], ◌∷◌}
use native.Mathlib.Nat.{suc-add}
use native.Mathlib.Omega.{arith}
use mcp_lock.Prelude.Tests.{ltb, nat_eq}
use mcp_lock.Prelude.Table.{passes_below, at_below}
use mcp_lock.Prelude.Lists.{length, drop, length-drop, All}
use mcp_lock.Prelude.Bytes.{Bytes, as_bytes}
use mcp_lock.Prelude.Bytes.Range.{IsByte}
use mcp_lock.Prelude.Hex.{
  hex_digit, to_hex, to_digit, from_str_radix, str_get, parse_pairs, from_hex,
}

-- The codes of the digits of the bytes.
abbrev pub digits_of : Bytes → Bytes
digits_of [] = []
digits_of (b ∷ bs) = code (hex_digit (b / 16)) ∷ code (hex_digit (b % 16)) ∷ digits_of bs

abbrev reads_as : Option ℕ → ℕ → Bool
reads_as none n = false
reads_as (some d) n = nat_eq d n

digit_ok : ℕ → Bool
digit_ok n =
    let c = code (hex_digit n) in reads_as (to_digit c) n && ltb c 128 && not (nat_eq c b'+')

digits_table : passes_below digit_ok 16 ≡ true
unfolding digit_ok passes_below to_digit
digits_table = refl

pub record IsDigit (n c : ℕ) : Type 0 where
  pub reads : to_digit c ≡ some n
  pub ascii : c < 128
  pub unsigned : c ≢ b'+'

pub hex_digit-IsDigit : (n : ℕ) → n < 16 → IsDigit n (code (hex_digit n))
unfolding digit_ok
hex_digit-IsDigit n h = ground (arith, at_below digit_ok 16 n h digits_table)

pub as_bytes-to_hex : (bs : Bytes) → All IsByte bs → as_bytes (to_hex bs) ≡ digits_of bs
unfolding as_bytes to_hex
as_bytes-to_hex [] h = refl
as_bytes-to_hex (b ∷ bs) h = ground (
  arith,
  hex_digit-IsDigit (b / 16) (omega arith),
  hex_digit-IsDigit (b % 16) (omega arith),
  as_bytes-to_hex bs h.1,
)

pub length-digits_of : (bs : Bytes) → length (digits_of bs) ≡ length bs * 2
length-digits_of [] = refl
length-digits_of (b ∷ bs) = omega (arith, length-digits_of bs)

drop-nil : (n : ℕ) → drop {A = ℕ} n [] ≡ []
drop-nil zero = refl
drop-nil (suc n) = refl

drop-drop : (m n : ℕ) (s : Bytes) → drop (m + n) s ≡ drop n (drop m s)
drop-drop zero n s = ground arith
drop-drop (suc m) n [] = drop-nil (suc m + n) ∙ sym (drop-nil n)
drop-drop (suc m) n (x ∷ s) = ap (λ k. drop k (x ∷ s)) (suc-add m n) ∙ drop-drop m n s

from_str_radix_pair :
    (b : ℕ)
    → IsByte b
    → from_str_radix (code (hex_digit (b / 16)) ∷ code (hex_digit (b % 16)) ∷ []) ≡ some b
unfolding from_str_radix
from_str_radix_pair b h =
    ground
      (arith, hex_digit-IsDigit (b / 16) (omega arith), hex_digit-IsDigit (b % 16) (omega arith))

str_get_pair :
    (s : Bytes) (i x y : ℕ) (bs : Bytes)
    → All IsByte bs
    → x < 128
    → drop i s ≡ x ∷ y ∷ digits_of bs
    → drop (i + 2) s ≡ digits_of bs
    → str_get s i (i + 2) ≡ some (x ∷ y ∷ [])
str_get_pair s i x y [] a hx e f =
    let len_s : length s ≡ i + 2 = omega (arith, ap length e, length-drop i s) in
    let two : i + 2 - i ≡ 2 = omega arith in rw (e, f, two, str_get) (ground arith)
str_get_pair s i x y (b ∷ bs) a hx e f =
    let two : i + 2 - i ≡ 2 = omega arith in
    rw (e, f, two, str_get) (ground (arith, hex_digit-IsDigit (b / 16) (omega arith)))

times : (i : ℕ) → suc i * 2 ≡ i * 2 + 2
times i = omega arith

parse_pairs-digits_of :
    (bs : Bytes) (i : ℕ) (s : Bytes)
    → All IsByte bs
    → drop (i * 2) s ≡ digits_of bs
    → parse_pairs (length bs) i s ≡ some bs
unfolding parse_pairs
parse_pairs-digits_of [] i s a e = refl
parse_pairs-digits_of (b ∷ bs) i s a e =
    let rest : drop (i * 2 + 2) s ≡ digits_of bs = drop-drop (i * 2) 2 s ∙ ap (drop 2) e in
    let here =
      str_get_pair s (i * 2) _ _ bs a.1 (hex_digit-IsDigit (b / 16) (omega arith)).ascii e rest in
    rw
      (
        here,
        from_str_radix_pair b a.0,
        parse_pairs-digits_of bs (suc i) s a.1 (rw (← times i) at rest),
      )
      refl

-- Every array of bytes is read back from the text that prints it.
pub from_hex-to_hex : (bs : Bytes) → All IsByte bs → from_hex (length bs) (to_hex bs) ≡ some bs
unfolding from_hex
from_hex-to_hex bs a = ground (
  arith,
  as_bytes-to_hex bs a,
  length-digits_of bs,
  parse_pairs-digits_of bs 0 (digits_of bs) a refl,
)
