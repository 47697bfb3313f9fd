-- ===== src/Mail/Arguments.antt =====
-- crates/mail/src/tools.rs: the arguments of a tool. A u64 is a usize.
use mcp_lock.Prelude.{
  ℕ, ◌-◌, ◌^◌, min, String, ◌&&◌, Option, none, some, leb, nat_eq, ◌==◌, eq_string, if◌then◌else◌,
}
use mcp_lock.Prelude.Results.{Result, ok, err}
use mcp_lock.Prelude.Text.{◌+++◌}
use mcp_lock.Json.{Json, JsonReads, Kind}

abbrev pub default_list_limit : ℕ
default_list_limit = 25

abbrev pub max_list_limit : ℕ
max_list_limit = 200

abbrev pub u32_max : ℕ
u32_max = 2 ^ 32 - 1

-- serde_json: `to_string_pretty` is none where it fails.
pub record ToolExternals (Value : Type 0) : Type 0 where
  pub json : Json Value
  pub reads : JsonReads Value
  pub to_string_pretty : Value → Option String

abbrev pub quoted : String → String → String
quoted key rest = "`" +++ (key +++ ("`" +++ rest))

abbrev pub missing : String → String
missing key = "missing required argument `" +++ (key +++ "`")

-- The match on the value of an argument.
abbrev pub string_kind : String → Kind → Result String String
string_kind key (Kind.text s) = if s == "" then err (quoted key " must not be empty") else ok s
string_kind key (Kind.number n) = err (quoted key " must be a string")
string_kind key Kind.null = err (quoted key " must be a string")
string_kind key Kind.other = err (quoted key " must be a string")

abbrev pub uid_in : String → Option ℕ → Result ℕ String
uid_in key none = err (quoted key " must be a positive integer UID")
uid_in key (some v) =
    if leb 1 v && leb v u32_max then ok v else err (quoted key " must be a positive integer UID")

abbrev pub uid_kind : String → Kind → Result ℕ String
uid_kind key (Kind.number n) = uid_in key n
uid_kind key (Kind.text s) = err (quoted key " must be an integer")
uid_kind key Kind.null = err (quoted key " must be an integer")
uid_kind key Kind.other = err (quoted key " must be an integer")

abbrev pub mailbox_kind : String → Kind → Result String String
mailbox_kind default_mailbox Kind.null = ok default_mailbox
mailbox_kind default_mailbox (Kind.text s) =
    if s == "" then err "`mailbox` must not be empty" else ok s
mailbox_kind default_mailbox (Kind.number n) = err "`mailbox` must be a string"
mailbox_kind default_mailbox Kind.other = err "`mailbox` must be a string"

abbrev pub limit_in : Option ℕ → Result ℕ String
limit_in none = err "`limit` must be a positive integer"
limit_in (some v) =
    if nat_eq v 0 then err "`limit` must be at least 1" else ok (min v max_list_limit)

abbrev pub limit_kind : ℕ → Kind → Result ℕ String
limit_kind default_limit Kind.null = ok default_limit
limit_kind default_limit (Kind.number n) = limit_in n
limit_kind default_limit (Kind.text s) = err "`limit` must be an integer"
limit_kind default_limit Kind.other = err "`limit` must be an integer"

module _ {Value : Type 0} (ext : ToolExternals Value) where
  -- The arguments. A call has an object for them, or an error.
  abbrev pub as_object : Value → Result Value String
  as_object v = if ext.json.is_object v then ok v else err "`arguments` must be an object"

  abbrev pub require_object : Option Value → Result Value String
  require_object none = err "`arguments` must be an object"
  require_object (some v) = as_object v

  abbrev pub string_arg : String → Option Value → Result String String
  string_arg key none = err (missing key)
  string_arg key (some v) = string_kind key (ext.reads.kind v)

  unfoldable pub require_string : Value → String → Result String String
  require_string args key = string_arg key (ext.json.get args key)

  abbrev pub uid_arg : String → Option Value → Result ℕ String
  uid_arg key none = err (missing key)
  uid_arg key (some v) = uid_kind key (ext.reads.kind v)

  unfoldable pub require_uid : Value → String → Result ℕ String
  require_uid args key = uid_arg key (ext.json.get args key)

  abbrev pub mailbox_arg : String → Option Value → Result String String
  mailbox_arg default_mailbox none = ok default_mailbox
  mailbox_arg default_mailbox (some v) = mailbox_kind default_mailbox (ext.reads.kind v)

  unfoldable pub optional_mailbox : Value → String → Result String String
  optional_mailbox args default_mailbox = mailbox_arg default_mailbox (ext.json.get args "mailbox")

  abbrev pub limit_arg : ℕ → Option Value → Result ℕ String
  limit_arg default_limit none = ok default_limit
  limit_arg default_limit (some v) = limit_kind default_limit (ext.reads.kind v)

  unfoldable pub optional_limit : Value → ℕ → Result ℕ String
  optional_limit args default_limit = limit_arg default_limit (ext.json.get args "limit")
