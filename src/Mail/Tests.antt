-- ===== src/Mail/Tests.antt =====
-- Tests of the mail server, and its theorems at concrete inputs. Lower case is that of ASCII. A JSON
-- value is a text, of which the test's parser knows a few.
use mcp_lock.Prelude.{
  ℕ, zero, suc, ◌≤◌, String, ◌≡◌, ◌↔◌, refl, inr, true, false, Option, none, some, [], ◌∷◌, Memᴰ,
  length, arith, ◌==◌, eq_string, if◌then◌else◌,
}
use mcp_lock.Prelude.Bytes.{as_bytes, is_blank}
use mcp_lock.Prelude.Decimal.{decimal, parse_unsigned}
use mcp_lock.Prelude.Results.{ok, err}
use mcp_lock.Prelude.Text.{◌+++◌}
use mcp_lock.Json.{Json, Kind}
use mcp_lock.Mail.Store.{MessageSummary, Message, mailbox_unavailable, MailStore}
use mcp_lock.Mail.Fake.{
  FakeMailStore, add_message, mailbox, list_messages, search, fetch_message, fake_mail_store, demo,
}
use mcp_lock.Mail.Inbox.{CanFetch, listing, search-CanFetch, list_messages-add_message}
use mcp_lock.Mail.Arguments.{
  ToolExternals, require_string, require_uid, optional_mailbox, optional_limit,
}
use mcp_lock.Mail.Tools.{
  summaries_to_result, call_search, call_list, call_fetch, call, message_to_result,
}
use mcp_lock.Mail.Reads.{Agree, call-Agree}
use mcp_lock.Mail.Server.{
  MailServer, ServerExternals, dispatch, handle_tools_call, handle_request, process_line, run,
}
use mcp_lock.Mail.Replies.{IsOwed, replies_to, handle_request-IsOwed}
use mcp_lock.Mail.Config.{ImapConfig, from_lookup, port_of, mailbox_of}
use mcp_lock.Mail.Settings.{Gives, from_lookup-eq-ok_iff}
use mcp_lock.Mail.Imap.{escaped, build_text_search, format_address}
use mcp_lock.Mail.Quoting.{read_quoted, without_breaks, build_text_search_lem}

abbrev as_is : String → String
as_is s = s

mail : Unit {0}
unfolding add_message mailbox list_messages search fetch_message as_bytes is_blank decimal
    parse_unsigned require_string require_uid optional_mailbox optional_limit summaries_to_result
    call_search call_list call_fetch call message_to_result dispatch handle_tools_call
    handle_request process_line run from_lookup port_of mailbox_of escaped build_text_search
    format_address
mail = tt

abbrev lunch : MessageSummary
lunch = record {
  uid = 2;
  subject = "Lunch?";
  from = "Sam <sam@example.test>";
  date = "Tue, 03 Jun 2026 12:30:00 +0000";
  seen = false;
}

lunch_found : search as_is demo "INBOX" "Lunch" 200 ≡ ok (lunch ∷ [])
unfolding mail
lunch_found = refl

no_archive : list_messages demo "Archive" 10 ≡ err (mailbox_unavailable "Archive")
unfolding mail
no_archive = refl

search-CanFetch_example :
    (length (lunch ∷ []) ≤ 200)
    × ((r : MessageSummary) → Memᴰ r (lunch ∷ []) → CanFetch demo "INBOX" r.uid)
search-CanFetch_example =
    search-CanFetch as_is demo "INBOX" "Lunch" 200 (lunch ∷ []) (inr lunch_found)

abbrev note : Message
note = record { uid = 9; subject = "note"; from = ""; to = ""; date = ""; body_text = "" }

list_messages-add_message_example :
    list_messages (add_message demo "INBOX" note true) "INBOX" 2
    ≡ ok (
        record { uid = 9; subject = "note"; from = ""; date = ""; seen = true }
        ∷ listing (list_messages demo "INBOX" 1))
list_messages-add_message_example = list_messages-add_message demo "INBOX" "INBOX" note true 1

abbrev json : Json String
json = record {
  get = λ v k. if v == "args" then (if k == "uid" then some "2" else none) else none;
  as_str = some;
  is_object = λ v. v == "args";
  null = "null";
  bool = λ b. "bool";
  integer = λ n. "number";
  string = λ s. s;
  array = λ vs. "array";
  object = λ es. "object";
}

abbrev tools : ToolExternals String
tools = record {
  json = json;
  reads = record {
    kind = λ v. if v == "2" then Kind.number (some 2) else Kind.other;
    as_i64 = λ v. none;
    as_array = λ v. none;
    from_str = ok;
    to_string = ok;
  };
  to_string_pretty = some;
}

no_query :
    call tools (fake_mail_store as_is) demo "search" (some "args") "INBOX"
    ≡ err "missing required argument `query`"
unfolding mail
no_query = refl

-- A store that fails on what the tools never ask.
abbrev guarded : MailStore FakeMailStore
guarded = record {
  list_messages =
      λ s m n. elim n [ zero ↦ err (mailbox_unavailable m) | suc k ↦ list_messages s m (suc k) ];
  search = search as_is;
  fetch_message =
      λ s m u. elim u [ zero ↦ err (mailbox_unavailable m) | suc k ↦ fetch_message s m (suc k) ];
}

guarded-Agree : Agree (fake_mail_store as_is) demo guarded demo
guarded-Agree = record {
  same_list = λ m n low high. listed m n low;
  same_search = λ m q n full low high. refl;
  same_message = λ m u low high. fetched m u low;
}
  where
    listed : (m : String) (n : ℕ) → 1 ≤ n → list_messages demo m n ≡ guarded.list_messages demo m n
    listed m zero low = absurd (omega arith)
    listed m (suc k) low = refl

    fetched : (m : String) (u : ℕ) → 1 ≤ u → fetch_message demo m u ≡ guarded.fetch_message demo m u
    fetched m zero low = absurd (omega arith)
    fetched m (suc k) low = refl

call-Agree_example :
    call tools (fake_mail_store as_is) demo "fetch_message" (some "args") "INBOX"
    ≡ call tools guarded demo "fetch_message" (some "args") "INBOX"
call-Agree_example =
    call-Agree tools (fake_mail_store as_is) demo guarded demo guarded-Agree "fetch_message"
      (some "args") "INBOX"

abbrev ext : ServerExternals String FakeMailStore
ext = record {
  tools = tools;
  ops = fake_mail_store as_is;
  parse_request = λ line.
      if line == "ping"
      then some (record { jsonrpc = "2.0"; id = some "7"; method = "ping"; params = none })
      else if line == "note"
      then some (record { jsonrpc = "2.0"; id = none; method = "ping"; params = none })
      else none;
  print_response = λ r. some r.id;
}

abbrev server : MailServer FakeMailStore
server = record {
  store = demo;
  server_name = "mail";
  server_version = "1";
  default_mailbox = "INBOX";
}

handle_request-IsOwed_example : IsOwed (some "7") (
    handle_request ext server
      (record { jsonrpc = "1.0"; id = some "7"; method = "ping"; params = none }))
handle_request-IsOwed_example =
    handle_request-IsOwed ext server
      (record { jsonrpc = "1.0"; id = some "7"; method = "ping"; params = none })

three_lines :
    replies_to ext server ("ping" ∷ " " ∷ "note" ∷ "bad" ∷ []) ≡ "7" ∷ "\n" ∷ "null" ∷ "\n" ∷ []
unfolding mail
three_lines = refl

abbrev environment : String → Option String
environment name =
    if name == "MAIL_IMAP_HOST"
    then some "h"
    else if name == "MAIL_IMAP_USERNAME"
    then some "u"
    else if name == "MAIL_IMAP_PASSWORD"
    then some "p"
    else if name == "MAIL_IMAP_PORT"
    then some "0"
    else none

abbrev settings : ImapConfig
settings = record {
  host = "h";
  port = 0;
  username = "u";
  password = "p";
  default_mailbox = "INBOX";
}

-- The port 0 passes, though the message of the error asks for 1 to 65535.
port_zero : from_lookup environment ≡ ok settings
unfolding mail
port_zero = refl

from_lookup-eq-ok_iff_example : (from_lookup environment ≡ ok settings) ↔ Gives environment settings
from_lookup-eq-ok_iff_example = from_lookup-eq-ok_iff environment settings

injection : build_text_search "a\"b\r\nX LOGOUT" ≡ "TEXT \"a\\\"bX LOGOUT\""
unfolding mail
injection = refl

build_text_search_lem_example :
    (t : String) × (build_text_search "say \"hi\"" ≡ "TEXT \"" +++ t)
    × (read_quoted false t ≡ some (without_breaks "say \"hi\"", ""))
build_text_search_lem_example = build_text_search_lem "say \"hi\""
