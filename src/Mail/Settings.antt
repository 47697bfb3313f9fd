-- ===== src/Mail/Settings.antt =====
-- Which environments give settings.
use text.Mathlib.TextEquality.{eq_iff}
use mcp_lock.Prelude.{
  ℕ, String, ◌≡◌, ◌≢◌, ◌⊎◌, ◌↔◌, refl, inl, inr, false, Option, none, some, ◌++◌, arith, Bool-cases,
  Option-cases, ◌==◌, eq_string,
}
use mcp_lock.Prelude.Decimal.{parse_unsigned}
use mcp_lock.Prelude.Results.{Result, ok, Result-cases}
use mcp_lock.Mail.Config.{
  host_var, port_var, username_var, password_var, mailbox_var, default_port, default_mailbox_name,
  u16_max, ImapConfig, ConfigError, is_unset, missing_if, unwrap, port_of, mailbox_of, with_port,
  unless_missing, from_lookup,
}

-- A variable that must be there is, and is not empty.
abbrev pub IsGiven : Option String → String → Type 0
IsGiven o s = (o ≡ some s) × (s ≢ "")

-- The value of a variable that may be absent or empty, and its default.
abbrev pub IsOr : Option String → String → String → Type 0
IsOr o fallback s = (((o ≡ none) ⊎ (o ≡ some "")) × (s ≡ fallback)) ⊎ IsGiven o s

abbrev pub IsPort : Option String → ℕ → Type 0
IsPort o p =
    (((o ≡ none) ⊎ (o ≡ some "")) × (p ≡ default_port))
    ⊎ ((s : String) × IsGiven o s × (parse_unsigned u16_max s ≡ some p))

port_of-eq-ok_iff : (o : Option String) (p : ℕ) → (port_of o ≡ ok p) ↔ IsPort o p
unfolding port_of
port_of-eq-ok_iff none p = (
  λ h. inl (inl refl, ground arith),
  λ h. elim h [ inl (u, e) ↦ ground arith | inr (s, (e, n), q) ↦ cc ],
)
port_of-eq-ok_iff (some s) p = elim (Bool-cases (s == "")) [
  | inl empty ↦
      let blank : s ≡ "" = (eq_iff s "").0 empty in
      rw (empty, port_of)
        (
          λ h. inl (inr (rw blank refl), ground arith),
          λ h. elim h [
            | inl (u, e) ↦ ground arith
            | inr (t, (e, n), q) ↦ absurd (n (let same : t ≡ s = cc in rw same blank))
          ],
        )
  | inr full ↦ elim (Option-cases (parse_unsigned u16_max s)) [
    | inl bad ↦
        rw (full, bad, port_of)
          (
            λ h. cc,
            λ h. elim h [
              | inl (inl a, e) ↦ cc
              | inl (inr a, e) ↦ absurd (ground (arith, eq_iff s ""))
              | inr (t, (e, n), q) ↦ let same : t ≡ s = cc in cc (rw same at q)
            ],
          )
    | inr (n, good) ↦
        rw (full, good, port_of)
          (
            λ h. inr (s, (refl, λ e. cc ((eq_iff s "").1 e)), ground (arith, good)),
            λ h. elim h [
              | inl (inl a, e) ↦ cc
              | inl (inr a, e) ↦ absurd (ground (arith, eq_iff s ""))
              | inr (t, (e, m), q) ↦
                  let same : t ≡ s = cc in
                  let q' : parse_unsigned u16_max s ≡ some p = rw same at q in ground arith
            ],
          )
  ]
]

mailbox_of_iff :
    (o : Option String) (m : String) → (m ≡ mailbox_of o) ↔ IsOr o default_mailbox_name m
unfolding mailbox_of
mailbox_of_iff none m = (λ h. inl (inl refl, h), λ h. elim h [ inl (u, e) ↦ e | inr (e, n) ↦ cc ])
mailbox_of_iff (some s) m = elim (Bool-cases (s == "")) [
  | inl empty ↦
      let blank : s ≡ "" = (eq_iff s "").0 empty in
      rw (empty, mailbox_of)
        (
          λ h. inl (inr (rw blank refl), h),
          λ h. elim h [
            | inl (u, e) ↦ e
            | inr (e, n) ↦ absurd (n (let same : s ≡ m = cc in rw (← same) blank))
          ],
        )
  | inr full ↦
      rw (full, mailbox_of)
        (
          λ h. inr (rw h refl, λ e. cc ((eq_iff s "").1 (rw h at e))),
          λ h. elim h [
            | inl (inl a, e) ↦ cc
            | inl (inr a, e) ↦ absurd (ground (arith, eq_iff s ""))
            | inr (e, n) ↦ cc
          ],
        )
]

is_unset-eq-false : (o : Option String) → is_unset o ≡ false → (s : String) × IsGiven o s
is_unset-eq-false none h = cc
is_unset-eq-false (some s) h = (s, (refl, λ e. cc ((eq_iff s "").1 e)))

IsGiven-unset : (o : Option String) (s : String) → IsGiven o s → is_unset o ≡ false
IsGiven-unset none s h = cc
IsGiven-unset (some t) s (e, n) = elim (Bool-cases (t == "")) [
  | inl empty ↦ let same : t ≡ s = cc in absurd (n (rw (← same) ((eq_iff t "").0 empty)))
  | inr full ↦ full
]

IsGiven-unwrap : (o : Option String) (s : String) → IsGiven o s → unwrap o ≡ s
IsGiven-unwrap none s h = cc
IsGiven-unwrap (some t) s h = cc

abbrev built :
    Option String
    → Option String
    → Option String
    → Option String
    → Option String
    → Result ImapConfig ConfigError
built h u p m r =
    unless_missing
      (missing_if h host_var ++ (missing_if u username_var ++ missing_if p password_var))
      (with_port h u p m (port_of r))

abbrev Describes :
    Option String
    → Option String
    → Option String
    → Option String
    → Option String
    → ImapConfig
    → Type 0
Describes h u p m r c =
    IsGiven h c.host
    × IsGiven u c.username
    × IsGiven p c.password
    × IsPort r c.port
    × IsOr m default_mailbox_name c.default_mailbox

built-Describes :
    (h u p m r : Option String) (c : ImapConfig) → built h u p m r ≡ ok c → Describes h u p m r c
built-Describes h u p m r c e = elim (Bool-cases (is_unset h)) [
  | inl no_host ↦ absurd (ground arith)
  | inr host ↦ elim (Bool-cases (is_unset u)) [
    | inl no_user ↦ absurd (ground arith)
    | inr user ↦ elim (Bool-cases (is_unset p)) [
      | inl no_password ↦ absurd (ground arith)
      | inr password ↦ elim (Result-cases (port_of r)) [
        | inr (x, bad) ↦ absurd (ground arith)
        | inl (n, good) ↦
            let (hs, (eh, nh)) = is_unset-eq-false h host in
            let (us, (eu, nu)) = is_unset-eq-false u user in
            let (ps, (ep, np)) = is_unset-eq-false p password in
            let e_host : c.host ≡ hs = ground (arith, e, eh) in
            let e_user : c.username ≡ us = ground (arith, e, eu) in
            let e_password : c.password ≡ ps = ground (arith, e, ep) in
            let e_port : c.port ≡ n = ground arith in
            let e_mailbox : c.default_mailbox ≡ mailbox_of m = ground arith in
            (
              rw e_host (eh, nh),
              rw e_user (eu, nu),
              rw e_password (ep, np),
              (port_of-eq-ok_iff r c.port).0 (rw e_port good),
              (mailbox_of_iff m c.default_mailbox).0 e_mailbox,
            )
      ]
    ]
  ]
]

Describes-built :
    (h u p m r : Option String) (c : ImapConfig) → Describes h u p m r c → built h u p m r ≡ ok c
Describes-built h u p m r c (host, user, password, port, mailbox) = ground (
  arith,
  IsGiven-unset h c.host host,
  IsGiven-unset u c.username user,
  IsGiven-unset p c.password password,
  IsGiven-unwrap h c.host host,
  IsGiven-unwrap u c.username user,
  IsGiven-unwrap p c.password password,
  (port_of-eq-ok_iff r c.port).1 port,
  (mailbox_of_iff m c.default_mailbox).1 mailbox,
)

-- The settings that an environment gives.
abbrev pub Gives : (String → Option String) → ImapConfig → Type 0
Gives lookup c =
    IsGiven (lookup host_var) c.host
    × IsGiven (lookup username_var) c.username
    × IsGiven (lookup password_var) c.password
    × IsPort (lookup port_var) c.port
    × IsOr (lookup mailbox_var) default_mailbox_name c.default_mailbox

-- An environment gives settings exactly when the host, the user name and the password are there and
-- not empty, and the port, if it is there and not empty, is a u16; they are what it says, with 993 and
-- INBOX for a port and a mailbox that are absent or empty.
pub from_lookup-eq-ok_iff :
    (lookup : String → Option String) (c : ImapConfig)
    → (from_lookup lookup ≡ ok c) ↔ Gives lookup c
unfolding from_lookup
from_lookup-eq-ok_iff lookup c = (
  built-Describes (lookup host_var) (lookup username_var) (lookup password_var) (lookup mailbox_var)
      (lookup port_var) c,
  Describes-built (lookup host_var) (lookup username_var) (lookup password_var) (lookup mailbox_var)
      (lookup port_var) c,
)
