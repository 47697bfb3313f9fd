-- ===== src/Mail/Config.antt =====
-- crates/mail/src/config.rs: the settings of the IMAP backend. `lookup` reads the environment.
use mcp_lock.Prelude.{
  ℕ, String, Bool, true, Option, none, some, List, [], ◌∷◌, ◌++◌, ◌==◌, eq_string, if◌then◌else◌,
}
use mcp_lock.Prelude.Decimal.{parse_unsigned}
use mcp_lock.Prelude.Results.{Result, ok, err}

abbrev pub host_var : String
host_var = "MAIL_IMAP_HOST"

abbrev pub port_var : String
port_var = "MAIL_IMAP_PORT"

abbrev pub username_var : String
username_var = "MAIL_IMAP_USERNAME"

abbrev pub password_var : String
password_var = "MAIL_IMAP_PASSWORD"

abbrev pub mailbox_var : String
mailbox_var = "MAIL_DEFAULT_MAILBOX"

abbrev pub default_port : ℕ
default_port = 993

abbrev pub default_mailbox_name : String
default_mailbox_name = "INBOX"

abbrev pub u16_max : ℕ
u16_max = 65535

pub record ImapConfig : Type 0 where
  pub host : String
  pub port : ℕ
  pub username : String
  pub password : String
  pub default_mailbox : String

pub data ConfigError : Type 0 where
  missing_vars : (names : List String) → ConfigError
  invalid_value : (name reason : String) → ConfigError

abbrev pub is_unset : Option String → Bool
is_unset none = true
is_unset (some s) = s == ""

abbrev pub missing_if : Option String → String → List String
missing_if value name = if is_unset value then name ∷ [] else []

-- `unwrap`, of a value that was found to be there: the other case is not reached.
abbrev pub unwrap : Option String → String
unwrap none = ""
unwrap (some s) = s

abbrev pub bad_port : ConfigError
bad_port = invalid_value port_var "must be a port number in 1..=65535"

abbrev pub parsed_port : Option ℕ → Result ℕ ConfigError
parsed_port none = err bad_port
parsed_port (some p) = ok p

unfoldable pub port_of : Option String → Result ℕ ConfigError
port_of none = ok default_port
port_of (some s) = if s == "" then ok default_port else parsed_port (parse_unsigned u16_max s)

unfoldable pub mailbox_of : Option String → String
mailbox_of none = default_mailbox_name
mailbox_of (some s) = if s == "" then default_mailbox_name else s

abbrev pub with_port :
    Option String
    → Option String
    → Option String
    → Option String
    → Result ℕ ConfigError
    → Result ImapConfig ConfigError
with_port host username password mailbox (err e) = err e
with_port host username password mailbox (ok port) = ok (record {
  host = unwrap host;
  port = port;
  username = unwrap username;
  password = unwrap password;
  default_mailbox = mailbox_of mailbox;
})

abbrev pub unless_missing :
    List String → Result ImapConfig ConfigError → Result ImapConfig ConfigError
unless_missing [] config = config
unless_missing (n ∷ ns) config = err (missing_vars (n ∷ ns))

unfoldable pub from_lookup : (String → Option String) → Result ImapConfig ConfigError
unfolding port_of mailbox_of
from_lookup lookup =
    unless_missing
      (missing_if (lookup host_var) host_var
        ++ (missing_if (lookup username_var) username_var
            ++ missing_if (lookup password_var) password_var))
      (with_port (lookup host_var) (lookup username_var) (lookup password_var) (lookup mailbox_var)
        (port_of (lookup port_var)))
