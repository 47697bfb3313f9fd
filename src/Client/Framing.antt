-- ===== src/Client/Framing.antt =====
-- The lines of a child's output are its messages.
use mcp_lock.Prelude.{
  ℕ, zero, suc, ◌+◌, ◌≤◌, ◌<◌, String, ◌≡◌, ap, ◌≢◌, ◌∙◌, refl, inl, inr, false, Option, none, some,
  List, [], ◌∷◌, ◌++◌, map, arith, Bool-cases, nat_eq, nat_eq_iff, length, length-append, All,
}
use mathlib.Core.List.{append_assoc}
use mcp_lock.Prelude.Bytes.{Bytes}
use mcp_lock.Prelude.Results.{Result, ok}
use mcp_lock.Client.Lines.{max_line_bytes, put_first, read_until, at_line, read_end, read_lines}

-- A message that has no newline and, with its newline, is within the cap.
abbrev pub IsMessage : Bytes → Type 0
IsMessage m = All (λ b. b ≢ 10) m × (length m < max_line_bytes)

-- Messages one after another, each ended by a newline.
abbrev pub frames : List Bytes → Bytes
frames [] = []
frames (m ∷ ms) = m ++ (10 ∷ frames ms)

read_until-frame :
    (m rest : Bytes) (limit : ℕ)
    → All (λ b. b ≢ 10) m
    → length m < limit
    → read_until limit (m ++ (10 ∷ rest)) ≡ (m ++ (10 ∷ []), rest, false)
unfolding read_until
read_until-frame m rest zero h l = absurd (omega arith)
read_until-frame [] rest (suc limit) h l = refl
read_until-frame (b ∷ m) rest (suc limit) h l = elim (Bool-cases (nat_eq b 10)) [
  | inl hit ↦ absurd (h.0 ((nat_eq_iff b 10).0 hit))
  | inr miss ↦ rw miss (ap (put_first b) (read_until-frame m rest limit h.1 (omega arith)))
]

pub length-read_until-le : (limit : ℕ) (bs : Bytes) → length (read_until limit bs).0 ≤ limit
unfolding read_until
length-read_until-le zero bs = omega arith
length-read_until-le (suc limit) [] = omega arith
length-read_until-le (suc limit) (b ∷ bs) = ground (arith, length-read_until-le limit bs)

module _ (from_utf8_lossy : Bytes → String) where
  abbrev pub item_of : Bytes → Result String String
  item_of m = ok (from_utf8_lossy (m ++ (10 ∷ [])))

  at_line-frame :
      (m : Bytes) (more : List (Result String String))
      → length m < max_line_bytes
      → at_line from_utf8_lossy (m ++ (10 ∷ [])) more ≡ item_of m ∷ more
  at_line-frame [] more h = ground arith
  at_line-frame (b ∷ m) more h = ground (arith, length-append m (10 ∷ []))

  read_end-false :
      (failure : Option String) (line : Bytes) (more : List (Result String String))
      → read_end from_utf8_lossy failure false line more ≡ at_line from_utf8_lossy line more
  read_end-false none line more = refl
  read_end-false (some e) line more = refl

  one_line :
      (m rest : Bytes) (n : ℕ) (failure : Option String)
      → IsMessage m
      → read_lines from_utf8_lossy (suc n) failure (m ++ (10 ∷ rest))
        ≡ item_of m ∷ read_lines from_utf8_lossy n failure rest
  unfolding read_lines
  one_line m rest n failure (clean, short) =
      rw (read_until-frame m rest (suc max_line_bytes) clean (omega arith)) (
        read_end-false failure (m ++ (10 ∷ [])) (read_lines from_utf8_lossy n failure rest)
        ∙ at_line-frame m (read_lines from_utf8_lossy n failure rest) short)

  lines_of :
      (ms : List Bytes) (n taken : ℕ) (failure : Option String) (rest : Bytes)
      → All IsMessage ms
      → n ≡ length ms + taken
      → read_lines from_utf8_lossy n failure (frames ms ++ rest)
        ≡ map item_of ms ++ read_lines from_utf8_lossy taken failure rest
  lines_of [] n taken failure rest h e = let same : n ≡ taken = omega arith in rw same refl
  lines_of (m ∷ ms) zero taken failure rest h e = absurd (omega arith)
  lines_of (m ∷ ms) (suc n) taken failure rest h e = rw (append_assoc m (10 ∷ frames ms) rest) (
      one_line m (frames ms ++ rest) n failure h.0
      ∙ ap (λ items. item_of m ∷ items) (lines_of ms n taken failure rest h.1 (omega arith)))

  -- The items that the client is sent for messages one after another are these messages, each with its
  -- newline, one for one and in order, and then those for what follows; as long as it takes them.
  pub read_lines-frames :
      (ms : List Bytes) (taken : ℕ) (failure : Option String) (rest : Bytes)
      → All IsMessage ms
      → read_lines from_utf8_lossy (length ms + taken) failure (frames ms ++ rest)
        ≡ map item_of ms ++ read_lines from_utf8_lossy taken failure rest
  read_lines-frames ms taken failure rest h = lines_of ms _ taken failure rest h refl
