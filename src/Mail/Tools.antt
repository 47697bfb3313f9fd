-- ===== src/Mail/Tools.antt =====
-- crates/mail/src/tools.rs: the three tools and their dispatch. The `ToolError` of the source is its
-- message.
use mcp_lock.Prelude.{
  ℕ, String, Bool, true, false, Option, none, some, List, [], ◌∷◌, map, length, ◌==◌, eq_string,
  if◌then◌else◌,
}
use mcp_lock.Prelude.Results.{Result, ok, err, ◌>>=◌}
use mcp_lock.Prelude.Text.{◌+++◌}
use mcp_lock.Child.{pos}
use mcp_lock.Mail.Arguments.{
  default_list_limit, max_list_limit, ToolExternals, as_object, require_object, require_string,
  require_uid, optional_mailbox, optional_limit,
}
use mcp_lock.Mail.Store.{MessageSummary, Message, MailError, mail_error_text, MailStore}

module _ {Value : Type 0} (ext : ToolExternals Value) where
  abbrev pub n_of : ℕ → Value
  n_of n = ext.json.integer (pos n)

  abbrev text_property : String → Value
  text_property description =
      ext.json.object
        (("type", ext.json.string "string") ∷ ("description", ext.json.string description) ∷ [])

  abbrev limit_property : String → Value
  limit_property description = ext.json.object (
      ("type", ext.json.string "integer")
      ∷ ("minimum", n_of 1)
      ∷ ("maximum", n_of max_list_limit)
      ∷ ("description", ext.json.string description)
      ∷ [])

  abbrev tool_definition : String → String → List (String × Value) → List Value → Value
  tool_definition name description properties required = ext.json.object (
      ("name", ext.json.string name)
      ∷ ("description", ext.json.string description)
      ∷ (
        "inputSchema",
        ext.json.object (
            ("type", ext.json.string "object")
            ∷ ("properties", ext.json.object properties)
            ∷ ("required", ext.json.array required)
            ∷ []),
      )
      ∷ [])

  abbrev pub tool_definitions : List Value
  tool_definitions =
      tool_definition "search"
        "Search a mailbox and return matching message summaries (newest first). Read-only."
        ((
          "query",
          text_property
              "Search text. Matches subject, sender, and body as supported by the mail server.",
        )
          ∷ (
            "mailbox",
            text_property
                "Mailbox to search. Defaults to the configured default mailbox (usually INBOX).",
          )
          ∷ ("limit", limit_property "Maximum number of matches to return. Defaults to 200.")
          ∷ [])
        (ext.json.string "query" ∷ [])
      ∷ tool_definition "list_messages"
          "List the most recent messages in a mailbox (newest first). Read-only."
          ((
            "mailbox",
            text_property
                "Mailbox to list. Defaults to the configured default mailbox (usually INBOX).",
          )
            ∷ ("limit", limit_property "Maximum number of messages to return. Defaults to 25.")
            ∷ [])
          []
      ∷ tool_definition "fetch_message"
          "Fetch one full message by UID, including a plain-text body. Read-only."
          ((
            "uid",
            ext.json.object (
                ("type", ext.json.string "integer")
                ∷ ("minimum", n_of 1)
                ∷ (
                  "description",
                  ext.json.string
                      "IMAP UID of the message, as returned by search or list_messages.",
                )
                ∷ []),
          )
            ∷ (
              "mailbox",
              text_property
                  "Mailbox the message is in. Defaults to the configured default mailbox (usually INBOX).",
            )
            ∷ [])
          (ext.json.string "uid" ∷ [])
      ∷ []

  -- The results.
  abbrev pub text_result : String → Bool → Value
  text_result text is_error = ext.json.object (
      (
        "content",
        ext.json.array (
            ext.json.object (("type", ext.json.string "text") ∷ ("text", ext.json.string text) ∷ [])
            ∷ []),
      )
      ∷ ("isError", ext.json.bool is_error)
      ∷ [])

  abbrev pub ok_text : String → Value
  ok_text text = text_result text false

  abbrev pub error_text : String → Value
  error_text text = text_result text true

  abbrev pub mail_error_to_result : MailError → Value
  mail_error_to_result e = error_text (mail_error_text e)

  abbrev pub or_braces : Option String → String
  or_braces none = "{}"
  or_braces (some s) = s

  abbrev pub summary_value : MessageSummary → Value
  summary_value s = ext.json.object (
      ("uid", n_of s.uid)
      ∷ ("subject", ext.json.string s.subject)
      ∷ ("from", ext.json.string s.from)
      ∷ ("date", ext.json.string s.date)
      ∷ ("seen", ext.json.bool s.seen)
      ∷ [])

  unfoldable pub summaries_to_result : Result (List MessageSummary) MailError → Value
  summaries_to_result (err e) = mail_error_to_result e
  summaries_to_result (ok summaries) = ok_text (
      or_braces (
        ext.to_string_pretty (
          ext.json.object (
            ("count", n_of (length summaries))
            ∷ ("messages", ext.json.array (map summary_value summaries))
            ∷ []))))

  unfoldable pub message_to_result : Message → Value
  message_to_result m = ok_text (
      or_braces (
        ext.to_string_pretty (
          ext.json.object (
            ("uid", n_of m.uid)
            ∷ ("subject", ext.json.string m.subject)
            ∷ ("from", ext.json.string m.from)
            ∷ ("to", ext.json.string m.to)
            ∷ ("date", ext.json.string m.date)
            ∷ ("body_text", ext.json.string m.body_text)
            ∷ []))))

  abbrev pub fetched : Result Message MailError → Value
  fetched (ok m) = message_to_result m
  fetched (err e) = mail_error_to_result e

  module _ {S : Type 0} (ops : MailStore S) (store : S) where
    unfoldable pub call_search : Option Value → String → Result Value String
    unfolding require_string optional_mailbox optional_limit
    call_search arguments default_mailbox = do
      args ← require_object ext arguments
      query ← require_string ext args "query"
      mailbox ← optional_mailbox ext args default_mailbox
      limit ← optional_limit ext args max_list_limit
      ok (summaries_to_result (ops.search store mailbox query limit))

    abbrev pub or_empty_object : Option Value → Value
    or_empty_object none = ext.json.object []
    or_empty_object (some v) = v

    unfoldable pub call_list : Option Value → String → Result Value String
    unfolding optional_mailbox optional_limit
    call_list arguments default_mailbox = do
      args ← as_object ext (or_empty_object arguments)
      mailbox ← optional_mailbox ext args default_mailbox
      limit ← optional_limit ext args default_list_limit
      ok (summaries_to_result (ops.list_messages store mailbox limit))

    unfoldable pub call_fetch : Option Value → String → Result Value String
    unfolding require_uid optional_mailbox
    call_fetch arguments default_mailbox = do
      args ← require_object ext arguments
      uid ← require_uid ext args "uid"
      mailbox ← optional_mailbox ext args default_mailbox
      ok (fetched (ops.fetch_message store mailbox uid))

    unfoldable pub call : String → Option Value → String → Result Value String
    unfolding call_search call_list call_fetch
    call name arguments default_mailbox =
        if name == "search"
        then call_search arguments default_mailbox
        else if name == "list_messages"
        then call_list arguments default_mailbox
        else if name == "fetch_message"
        then call_fetch arguments default_mailbox
        else ok (
            error_text (
              "unknown tool '"
              +++ (name +++ "'; available tools: search, list_messages, fetch_message")))
