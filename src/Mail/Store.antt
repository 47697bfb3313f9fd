-- ===== src/Mail/Store.antt =====
-- crates/mail/src/mailstore.rs: what a mail store holds, its errors and its operations.
use mcp_lock.Prelude.{ℕ, String, Bool, List}
use mcp_lock.Prelude.Decimal.{decimal}
use mcp_lock.Prelude.Results.{Result}
use mcp_lock.Prelude.Text.{◌+++◌}

pub record MessageSummary : Type 0 where
  pub uid : ℕ
  pub subject : String
  pub from : String
  pub date : String
  pub seen : Bool

pub record Message : Type 0 where
  pub uid : ℕ
  pub subject : String
  pub from : String
  pub to : String
  pub date : String
  pub body_text : String

pub data MailError : Type 0 where
  mailbox_unavailable : (mailbox : String) → MailError
  message_not_found : (uid : ℕ) → MailError
  invalid_query : (reason : String) → MailError
  backend : (message : String) → MailError

-- `Display`.
abbrev pub mail_error_text : MailError → String
mail_error_text (mailbox_unavailable mailbox) = "mailbox unavailable: " +++ mailbox
mail_error_text (message_not_found uid) = "message not found: uid " +++ decimal uid
mail_error_text (invalid_query reason) = "invalid search query: " +++ reason
mail_error_text (backend message) = "mail backend error: " +++ message

-- The trait `MailStore`.
pub record MailStore (S : Type 0) : Type 0 where
  pub list_messages : S → String → ℕ → Result (List MessageSummary) MailError
  pub search : S → String → String → ℕ → Result (List MessageSummary) MailError
  pub fetch_message : S → String → ℕ → Result Message MailError
