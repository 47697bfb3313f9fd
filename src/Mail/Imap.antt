-- ===== src/Mail/Imap.antt =====
-- crates/mail/src/imap_backend.rs: the IMAP backend. The session, with the network behind it, and the
-- parser of mails are parameters; an error of the session is its text, which `backend_err` keeps.
use Prim.Native.Char.{code}
use mcp_lock.Prelude.{
  ℕ, String, Bool, true, false, ◌||◌, Option, none, some, List, [], ◌∷◌, map, take, leb, nat_eq,
  if◌then◌else◌,
}
use mcp_lock.Prelude.Decimal.{decimal}
use mcp_lock.Prelude.Results.{Result, ok, err}
use mcp_lock.Prelude.Text.{◌+++◌, contains, join}
use mcp_lock.Mail.Store.{
  MessageSummary, Message, MailError, mailbox_unavailable, message_not_found, backend,
}
use mcp_lock.Mail.Config.{ImapConfig}

-- The characters CR and LF are stripped, and the two special ones of a quoted string escaped.
unfoldable pub escaped : String → String
escaped String.[] = ""
escaped (String.◌∷◌ c s) =
    let rest = escaped s in
    if nat_eq (code c) 13 || nat_eq (code c) 10
    then rest
    else if nat_eq (code c) b'"' || nat_eq (code c) b'\\'
    then String.◌∷◌ "\\" (String.◌∷◌ c rest)
    else String.◌∷◌ c rest

unfoldable pub build_text_search : String → String
unfolding escaped
build_text_search query = "TEXT \"" +++ (escaped query +++ "\"")

-- An address of a parsed mail: its name and its mailbox; and a list of them, or of groups.
pub record Addr : Type 0 where
  pub name : Option String
  pub address : Option String

pub data Address : Type 0 where
  list : List Addr → Address
  group : List (List Addr) → Address

abbrev pub push_parts : Option String → Option String → List String → List String
push_parts (some name) (some email) more = (name +++ (" <" +++ (email +++ ">"))) ∷ more
push_parts none (some email) more = email ∷ more
push_parts (some name) none more = name ∷ more
push_parts none none more = more

-- What the addresses push, and then the rest.
abbrev pub push_addrs : List Addr → List String → List String
push_addrs [] more = more
push_addrs (a ∷ others) more = push_parts a.name a.address (push_addrs others more)

abbrev pub push_groups : List (List Addr) → List String
push_groups [] = []
push_groups (g ∷ gs) = push_addrs g (push_groups gs)

unfoldable pub format_address : Option Address → String
format_address none = ""
format_address (some (Address.list addrs)) = join ", " (push_addrs addrs [])
format_address (some (Address.group groups)) = join ", " (push_groups groups)

-- What one fetch gives, and what a mail parser makes of bytes, which are texts here.
pub record Fetch : Type 0 where
  pub uid : Option ℕ
  pub is_seen : Bool
  pub header : Option String
  pub body : Option String

pub record ParsedMail : Type 0 where
  pub subject : Option String
  pub from : Option Address
  pub to : Option Address
  pub date : Option String
  pub body_text : Option String

abbrev pub or_blank : Option String → String
or_blank none = ""
or_blank (some s) = s

-- The session, and the parser.
pub record ImapExternals (Net : Type 0) : Type 0 where
  pub connect : Net → ImapConfig → Result (Unit {0}) String × Net
  pub examine : Net → String → Bool × Net
  pub uid_search : Net → String → Result (List ℕ) String × Net
  pub uid_fetch : Net → String → String → Result (List Fetch) String × Net
  pub logout : Net → Net
  pub parse : String → Option ParsedMail

-- Larger identifiers first. Every unstable sort gives this result on numbers.
abbrev pub insert_newest : ℕ → List ℕ → List ℕ
insert_newest u [] = u ∷ []
insert_newest u (v ∷ vs) = if leb v u then u ∷ v ∷ vs else v ∷ insert_newest u vs

unfoldable pub newest_first : List ℕ → List ℕ
newest_first [] = []
newest_first (u ∷ us) = insert_newest u (newest_first us)

abbrev pub insert_summary : MessageSummary → List MessageSummary → List MessageSummary
insert_summary s [] = s ∷ []
insert_summary s (t ∷ ts) = if leb t.uid s.uid then s ∷ t ∷ ts else t ∷ insert_summary s ts

unfoldable pub sort_summaries : List MessageSummary → List MessageSummary
sort_summaries [] = []
sort_summaries (s ∷ ss) = insert_summary s (sort_summaries ss)

abbrev pub is_unsafe : String → Bool
is_unsafe mailbox = contains mailbox 13 || contains mailbox 10 || contains mailbox 0

abbrev pub in_backend : {A : Type 0} → Result A String → Result A MailError
in_backend (ok a) = ok a
in_backend (err e) = err (backend e)

module _ {Net : Type 0} (ext : ImapExternals Net) (config : ImapConfig) where
  abbrev pub then_logout : {T : Type 0} → Result T MailError × Net → Result T MailError × Net
  then_logout (r, net) = (r, ext.logout net)

  abbrev pub opened :
      {T : Type 0}
      → String
      → (Net → Result T MailError × Net)
      → Bool × Net
      → Result T MailError × Net
  opened mailbox op (true, net) = then_logout (op net)
  opened mailbox op (false, net) = (err (mailbox_unavailable mailbox), ext.logout net)

  abbrev pub connected :
      {T : Type 0}
      → String
      → (Net → Result T MailError × Net)
      → Result (Unit {0}) String × Net
      → Result T MailError × Net
  connected mailbox op (err e, net) = (err (backend e), net)
  connected mailbox op (ok u, net) = opened mailbox op (ext.examine net mailbox)

  unfoldable pub with_mailbox :
      {T : Type 0} → Net → String → (Net → Result T MailError × Net) → Result T MailError × Net
  unfolding contains
  with_mailbox net mailbox op =
      if is_unsafe mailbox
      then (err (mailbox_unavailable mailbox), net)
      else connected mailbox op (ext.connect net config)

  abbrev pub summary_of_mail : ℕ → Bool → Option ParsedMail → MessageSummary
  summary_of_mail uid seen none = record {
    uid = uid;
    subject = "";
    from = "";
    date = "";
    seen = seen;
  }
  summary_of_mail uid seen (some m) = record {
    uid = uid;
    subject = or_blank m.subject;
    from = format_address m.from;
    date = or_blank m.date;
    seen = seen;
  }

  abbrev pub summary_from : Fetch → Option ℕ → List MessageSummary → List MessageSummary
  summary_from f none more = more
  summary_from f (some uid) more =
      summary_of_mail uid f.is_seen (ext.parse (or_blank f.header)) ∷ more

  unfoldable pub summaries_from : List Fetch → List MessageSummary
  unfolding format_address
  summaries_from [] = []
  summaries_from (f ∷ fs) = summary_from f f.uid (summaries_from fs)

  abbrev pub summarized :
      Result (List Fetch) String × Net → Result (List MessageSummary) MailError × Net
  summarized (err e, net) = (err (backend e), net)
  summarized (ok fs, net) = (ok (sort_summaries (summaries_from fs)), net)

  unfoldable pub fetch_summaries : Net → List ℕ → Result (List MessageSummary) MailError × Net
  unfolding sort_summaries summaries_from
  fetch_summaries net [] = (ok [], net)
  fetch_summaries net (u ∷ us) =
      summarized
        (ext.uid_fetch net (join "," (map decimal (u ∷ us))) "(UID FLAGS BODY.PEEK[HEADER])")

  abbrev pub searched :
      ℕ → Result (List ℕ) String × Net → Result (List MessageSummary) MailError × Net
  searched limit (err e, net) = (err (backend e), net)
  searched limit (ok uids, net) = fetch_summaries net (take limit (newest_first uids))

  unfoldable pub list_messages : Net → String → ℕ → Result (List MessageSummary) MailError × Net
  unfolding with_mailbox fetch_summaries newest_first
  list_messages net mailbox limit =
      with_mailbox net mailbox (λ n. searched limit (ext.uid_search n "ALL"))

  unfoldable pub search : Net → String → String → ℕ → Result (List MessageSummary) MailError × Net
  unfolding with_mailbox fetch_summaries newest_first build_text_search
  search net mailbox query limit =
      with_mailbox net mailbox (λ n. searched limit (ext.uid_search n (build_text_search query)))

  abbrev pub message_of_mail : ℕ → String → Option ParsedMail → Message
  message_of_mail uid bytes none = record {
    uid = uid;
    subject = "";
    from = "";
    to = "";
    date = "";
    body_text = bytes;
  }
  message_of_mail uid bytes (some m) = record {
    uid = uid;
    subject = or_blank m.subject;
    from = format_address m.from;
    to = format_address m.to;
    date = or_blank m.date;
    body_text = or_blank m.body_text;
  }

  abbrev pub message_from_fetch : ℕ → Fetch → Message
  message_from_fetch uid f = message_of_mail uid (or_blank f.body) (ext.parse (or_blank f.body))

  abbrev pub first_message : ℕ → Result (List Fetch) String × Net → Result Message MailError × Net
  first_message uid (err e, net) = (err (backend e), net)
  first_message uid (ok [], net) = (err (message_not_found uid), net)
  first_message uid (ok (f ∷ fs), net) = (ok (message_from_fetch uid f), net)

  unfoldable pub fetch_message : Net → String → ℕ → Result Message MailError × Net
  unfolding with_mailbox
  fetch_message net mailbox uid =
      with_mailbox net mailbox
        (λ n. first_message uid (ext.uid_fetch n (decimal uid) "(UID FLAGS BODY.PEEK[])"))
