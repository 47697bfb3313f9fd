-- ===== src/Control/Signatures.antt =====
-- The texts in which a signature travels.
use mcp_lock.Prelude.{◌+◌, ◌*◌, ◌/◌, ◌%◌, ◌≡◌, refl, ap, some, [], ◌∷◌, arith, length, All}
use mcp_lock.Prelude.Bytes.{Bytes, len}
use mcp_lock.Prelude.Bytes.Range.{IsByte}
use mcp_lock.Prelude.Hex.{to_hex}
use mcp_lock.Prelude.Hex.RoundTrip.{digits_of, hex_digit-IsDigit, as_bytes-to_hex, length-digits_of}
use mcp_lock.Control.Presence.{decode_hex, decode_pairs}

decode_pairs-digits_of : (bs : Bytes) → All IsByte bs → decode_pairs (digits_of bs) ≡ some bs
unfolding decode_pairs
decode_pairs-digits_of [] h = refl
decode_pairs-digits_of (b ∷ bs) h =
    let same : b / 16 * 16 + b % 16 ≡ b = omega arith in
    rw
      (
        (hex_digit-IsDigit (b / 16) (omega arith)).reads,
        (hex_digit-IsDigit (b % 16) (omega arith)).reads,
        decode_pairs-digits_of bs h.1,
      )
      (ap (λ x. some (x ∷ bs)) same)

-- Bytes printed as lower-case hexadecimal digits are read back by `decode_hex`.
pub decode_hex-to_hex : (bs : Bytes) → All IsByte bs → decode_hex (to_hex bs) ≡ some bs
unfolding decode_hex len
decode_hex-to_hex bs h =
    let even : length (digits_of bs) % 2 ≡ 0 = omega (arith, length-digits_of bs) in
    rw (as_bytes-to_hex bs h, even, decode_hex) (decode_pairs-digits_of bs h)
