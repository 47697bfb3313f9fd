-- ===== src/Mail/Quoting.antt =====
-- What a quoted search text means to an IMAP server.
use Prim.Native.Char.{Char, code}
use text.Mathlib.TextLemmas.{nil-append, cons-append}
use mcp_lock.Prelude.{
  String, ◌≡◌, refl, subst, ap, inl, inr, Bool, true, false, ◌||◌, Option, none, some, arith,
  nat_eq, Bool-cases, if◌then◌else◌,
}
use mcp_lock.Prelude.Text.{◌+++◌}
use mcp_lock.Mail.Imap.{escaped, build_text_search}

abbrev is_break : Char → Bool
is_break c = nat_eq (code c) 13 || nat_eq (code c) 10

abbrev put_first : Char → Option (String × String) → Option (String × String)
put_first c none = none
put_first c (some (text, rest)) = some (String.◌∷◌ c text, rest)

-- A quoted string of RFC 3501, after its opening quote: its text, and what follows the closing one. It
-- can hold no CR and no LF. The flag is set after a backslash.
pub read_quoted : Bool → String → Option (String × String)
read_quoted escape String.[] = none
read_quoted true (String.◌∷◌ c s) = put_first c (read_quoted false s)
read_quoted false (String.◌∷◌ c s) =
    let escaped_next = read_quoted true s in
    let plain = put_first c (read_quoted false s) in
    if nat_eq (code c) b'"'
    then some ("", s)
    else if nat_eq (code c) b'\\'
    then escaped_next
    else if is_break c
    then none
    else plain

-- The text without its line breaks.
pub without_breaks : String → String
without_breaks String.[] = ""
without_breaks (String.◌∷◌ c s) =
    let rest = without_breaks s in if is_break c then rest else String.◌∷◌ c rest

read_quoted-escaped :
    (q rest : String)
    → read_quoted false (escaped q +++ ("\"" +++ rest)) ≡ some (without_breaks q, rest)
unfolding read_quoted escaped without_breaks
read_quoted-escaped String.[] rest = rw (nil-append, cons-append, nil-append, read_quoted) refl
read_quoted-escaped (String.◌∷◌ c q) rest = elim (Bool-cases (is_break c)) [
  | inl stripped ↦ rw stripped (read_quoted-escaped q rest)
  | inr shown ↦ elim (Bool-cases (nat_eq (code c) b'"' || nat_eq (code c) b'\\')) [
    | inl special ↦
        rw (shown, special, cons-append, cons-append, read_quoted)
          (ap (put_first c) (read_quoted-escaped q rest))
    | inr plain ↦
        rw (shown, plain, cons-append, read_quoted) (ground (arith, read_quoted-escaped q rest))
  ]
]

quote_append : "\"" +++ "" ≡ "\""
quote_append = rw (cons-append, nil-append) refl

-- The criterion of a search is the word TEXT and one quoted string: it reads back as the query without
-- its line breaks, whatever quotes and backslashes the query holds, and nothing follows it.
pub build_text_search_lem :
    (query : String)
    → (t : String) × (build_text_search query ≡ "TEXT \"" +++ t)
      × (read_quoted false t ≡ some (without_breaks query, ""))
unfolding build_text_search
build_text_search_lem query = (
  escaped query +++ "\"",
  refl,
  subst (λ t. read_quoted false (escaped query +++ t) ≡ some (without_breaks query, ""))
      quote_append (read_quoted-escaped query ""),
)
