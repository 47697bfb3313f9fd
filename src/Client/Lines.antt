-- ===== src/Client/Lines.antt =====
-- crates/broker/src/mcp_client.rs: the thread that reads the output of a child line by line.
use mcp_lock.Prelude.{
  ℕ, zero, suc, ◌*◌, String, Bool, true, false, Option, none, some, List, [], ◌∷◌, ltb, nat_eq,
  length, if◌then◌else◌,
}
use mcp_lock.Prelude.Bytes.{Bytes}
use mcp_lock.Prelude.Results.{Result, ok, err}

abbrev pub max_line_bytes : ℕ
max_line_bytes = 8 * 1024 * 1024

-- What the child writes, and the error that ends it, if it is not just the end.
pub record Stdout : Type 0 where
  pub bytes : Bytes
  pub failure : Option String

abbrev pub put_first : ℕ → Bytes × Bytes × Bool → Bytes × Bytes × Bool
put_first b (line, rest, cut) = (b ∷ line, rest, cut)

-- `read_until(b'\n')` on at most `limit` bytes: the bytes that are read, what is left, and whether the
-- end of the output was met first.
unfoldable pub read_until : ℕ → Bytes → Bytes × Bytes × Bool
read_until zero bs = ([], bs, false)
read_until (suc limit) [] = ([], [], true)
read_until (suc limit) (b ∷ bs) =
    let more = put_first b (read_until limit bs) in
    if nat_eq b 10 then (b ∷ [], bs, false) else more

module _ (from_utf8_lossy : Bytes → String) where
  abbrev pub too_long : Bytes → Bool
  too_long line = ltb max_line_bytes (length line)

  abbrev pub at_line : Bytes → List (Result String String) → List (Result String String)
  at_line [] more = []
  at_line (b ∷ line) more =
      if too_long (b ∷ line)
      then err "child message exceeded 8388608 bytes" ∷ []
      else ok (from_utf8_lossy (b ∷ line)) ∷ more

  -- A read that meets the end is an error where the output ends in one.
  abbrev pub read_end :
      Option String → Bool → Bytes → List (Result String String) → List (Result String String)
  read_end (some e) true line more = err e ∷ []
  read_end (some e) false line more = at_line line more
  read_end none cut line more = at_line line more

  -- The items that the client is sent; `taken` of them, and no more, find a receiver. The loop sends
  -- one item in each round, and ends when that fails.
  unfoldable pub read_lines : ℕ → Option String → Bytes → List (Result String String)
  read_lines zero failure bs = []
  read_lines (suc taken) failure bs =
      let (line, rest, cut) = read_until (suc max_line_bytes) bs in
      read_end failure cut line (read_lines taken failure rest)
