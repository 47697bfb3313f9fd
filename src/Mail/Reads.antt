-- ===== src/Mail/Reads.antt =====
-- What the tools read of a mail store.
use text.Mathlib.TextEquality.{eq_iff}
use mcp_lock.Prelude.{
  ℕ, ◌≤◌, String, ◌≡◌, ◌≢◌, inl, inr, Option, none, some, arith, eq_string, Option-cases,
}
use mcp_lock.Prelude.Results.{ok, Result-cases}
use mcp_lock.Json.{Kind}
use mcp_lock.Mail.Store.{MailStore}
use mcp_lock.Mail.Arguments.{
  default_list_limit, max_list_limit, u32_max, ToolExternals, string_kind, uid_kind, limit_kind,
  as_object, require_object, require_string, require_uid, optional_mailbox, optional_limit,
}
use mcp_lock.Mail.Tools.{call_search, call_list, or_empty_object, call_fetch, call}

abbrev IsLimit : ℕ → Type 0
IsLimit n = (1 ≤ n) × (n ≤ max_list_limit)

limit_kind-IsLimit : (d : ℕ) (k : Kind) (n : ℕ) → IsLimit d → limit_kind d k ≡ ok n → IsLimit n
limit_kind-IsLimit d Kind.null n i h = ground arith
limit_kind-IsLimit d Kind.other n i h = cc
limit_kind-IsLimit d (Kind.text s) n i h = cc
limit_kind-IsLimit d (Kind.number none) n i h = cc
limit_kind-IsLimit d (Kind.number (some v)) n i h = ground arith

string_kind-ne-empty : (key : String) (k : Kind) (q : String) → string_kind key k ≡ ok q → q ≢ ""
string_kind-ne-empty key (Kind.text s) q h e = ground (arith, eq_iff s "")
string_kind-ne-empty key (Kind.number n) q h e = cc
string_kind-ne-empty key Kind.null q h e = cc
string_kind-ne-empty key Kind.other q h e = cc

uid_kind_bounds :
    (key : String) (k : Kind) (u : ℕ) → uid_kind key k ≡ ok u → (1 ≤ u) × (u ≤ u32_max)
uid_kind_bounds key (Kind.number none) u h = cc
uid_kind_bounds key (Kind.number (some v)) u h = ground arith
uid_kind_bounds key (Kind.text s) u h = cc
uid_kind_bounds key Kind.null u h = cc
uid_kind_bounds key Kind.other u h = cc

-- Two stores that give the same for what the tools may ask.
pub record Agree {S T : Type 0} (ops : MailStore S) (s : S) (ops' : MailStore T) (t : T)
    : Type 0 where
  pub same_list :
      (mailbox : String) (limit : ℕ)
      → 1 ≤ limit
      → limit ≤ max_list_limit
      → ops.list_messages s mailbox limit ≡ ops'.list_messages t mailbox limit
  pub same_search :
      (mailbox query : String) (limit : ℕ)
      → query ≢ ""
      → 1 ≤ limit
      → limit ≤ max_list_limit
      → ops.search s mailbox query limit ≡ ops'.search t mailbox query limit
  pub same_message :
      (mailbox : String) (uid : ℕ)
      → 1 ≤ uid
      → uid ≤ u32_max
      → ops.fetch_message s mailbox uid ≡ ops'.fetch_message t mailbox uid

module _ {Value : Type 0} (ext : ToolExternals Value) where
  optional_limit-IsLimit :
      (args : Value) (d n : ℕ) → IsLimit d → optional_limit ext args d ≡ ok n → IsLimit n
  unfolding optional_limit
  optional_limit-IsLimit args d n i h = elim (Option-cases (ext.json.get args "limit")) [
    | inl e ↦ ground arith
    | inr (v, e) ↦ limit_kind-IsLimit d (ext.reads.kind v) n i (ground arith)
  ]

  require_string-ne-empty :
      (args : Value) (key q : String) → require_string ext args key ≡ ok q → q ≢ ""
  unfolding require_string
  require_string-ne-empty args key q h = elim (Option-cases (ext.json.get args key)) [
    | inl e ↦ ground arith
    | inr (v, e) ↦ string_kind-ne-empty key (ext.reads.kind v) q (ground arith)
  ]

  require_uid_bounds :
      (args : Value) (key : String) (u : ℕ)
      → require_uid ext args key ≡ ok u
      → (1 ≤ u) × (u ≤ u32_max)
  unfolding require_uid
  require_uid_bounds args key u h = elim (Option-cases (ext.json.get args key)) [
    | inl e ↦ ground arith
    | inr (v, e) ↦ uid_kind_bounds key (ext.reads.kind v) u (ground arith)
  ]

  module _ {S T : Type 0} (ops : MailStore S) (s : S) (ops' : MailStore T) (t : T)
      (a : Agree ops s ops' t) where
    call_search-Agree :
        (arguments : Option Value) (d : String)
        → call_search ext ops s arguments d ≡ call_search ext ops' t arguments d
    unfolding call_search
    call_search-Agree arguments d = elim (Result-cases (require_object ext arguments)) [
      | inl (args, ea) ↦ elim (Result-cases (require_string ext args "query")) [
        | inl (q, eq) ↦ elim (Result-cases (optional_mailbox ext args d)) [
          | inl (m, em) ↦ elim (Result-cases (optional_limit ext args max_list_limit)) [
            | inl (n, en) ↦
                let (low, high) = optional_limit-IsLimit args max_list_limit n (omega arith) en in
                ground
                  (arith, a.same_search m q n (require_string-ne-empty args "query" q eq) low high)
            | inr (x, e) ↦ ground arith
          ]
          | inr (x, e) ↦ ground arith
        ]
        | inr (x, e) ↦ ground arith
      ]
      | inr (x, e) ↦ ground arith
    ]

    call_list-Agree :
        (arguments : Option Value) (d : String)
        → call_list ext ops s arguments d ≡ call_list ext ops' t arguments d
    unfolding call_list
    call_list-Agree arguments d =
        elim (Result-cases (as_object ext (or_empty_object ext ops s arguments))) [
          | inl (args, ea) ↦ elim (Result-cases (optional_mailbox ext args d)) [
            | inl (m, em) ↦ elim (Result-cases (optional_limit ext args default_list_limit)) [
              | inl (n, en) ↦
                  let (low, high) =
                    optional_limit-IsLimit args default_list_limit n (omega arith) en in
                  ground (arith, a.same_list m n low high)
              | inr (x, e) ↦ ground arith
            ]
            | inr (x, e) ↦ ground arith
          ]
          | inr (x, e) ↦ ground arith
        ]

    call_fetch-Agree :
        (arguments : Option Value) (d : String)
        → call_fetch ext ops s arguments d ≡ call_fetch ext ops' t arguments d
    unfolding call_fetch
    call_fetch-Agree arguments d = elim (Result-cases (require_object ext arguments)) [
      | inl (args, ea) ↦ elim (Result-cases (require_uid ext args "uid")) [
        | inl (u, eu) ↦ elim (Result-cases (optional_mailbox ext args d)) [
          | inl (m, em) ↦
              let (low, high) = require_uid_bounds args "uid" u eu in
              ground (arith, a.same_message m u low high)
          | inr (x, e) ↦ ground arith
        ]
        | inr (x, e) ↦ ground arith
      ]
      | inr (x, e) ↦ ground arith
    ]

    -- Whatever the name and the arguments, a call depends on its mail store only by listings and
    -- searches for at least 1 and at most 200 messages, the searches for a text that is not empty, and
    -- by fetches of identifiers from 1 to the largest u32.
    pub call-Agree :
        (name : String) (arguments : Option Value) (default_mailbox : String)
        → call ext ops s name arguments default_mailbox
          ≡ call ext ops' t name arguments default_mailbox
    unfolding call
    call-Agree name arguments d = ground (
      arith,
      call_search-Agree arguments d,
      call_list-Agree arguments d,
      call_fetch-Agree arguments d,
    )
