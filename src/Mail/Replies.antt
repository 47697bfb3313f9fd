-- ===== src/Mail/Replies.antt =====
-- Which lines of the input are answered, and with what.
use mathlib.Core.List.{append_assoc, append-nil}
use mcp_lock.Prelude.{
  String, ◌≡◌, refl, ◌∙◌, ◌⊎◌, inl, inr, Option, none, some, List, [], ◌∷◌, ◌++◌, map, Bool-cases,
  Option-cases, ◌==◌, eq_string, if◌then◌else◌,
}
use mcp_lock.Prelude.Bytes.{is_blank}
use mcp_lock.Prelude.Results.{Result, ok, err}
use mcp_lock.Mail.Server.{
  Request, RpcError, Response, MailServer, ServerExternals, tool_response, call_named,
  handle_tools_call, dispatch, handle_request, process_line, run,
}

-- A response bears either a result or an error.
abbrev pub IsOneOf : {Value : Type 0} → Response Value → Type 0
IsOneOf {Value} r =
    ((v : Value) × (r.result ≡ some v) × (r.error ≡ none))
    ⊎ ((e : RpcError) × (r.result ≡ none) × (r.error ≡ some e))

-- A response to a request of that id.
abbrev pub Answers : {Value : Type 0} → Value → Response Value → Type 0
Answers id r = (r.jsonrpc ≡ "2.0") × (r.id ≡ id) × IsOneOf r

-- What a request is owed: nothing where it has no id, else a response of its id.
abbrev pub IsOwed : {Value : Type 0} → Option Value → Option (Response Value) → Type 0
IsOwed none r = r ≡ none
IsOwed {Value} (some id) r = (a : Response Value) × (r ≡ some a) × Answers id a

abbrev pub reply_of : Option String → List String
reply_of none = []
reply_of (some text) = text ∷ "\n" ∷ []

-- A writer that keeps what it is given, and one that keeps it as it is.
abbrev pub keep : List String → String → Result (Unit {0}) String × List String
keep w text = (ok tt, w ++ text ∷ [])

abbrev pub kept : List String → Result (Unit {0}) String × List String
kept w = (ok tt, w)

module _ {Value S : Type 0} (ext : ServerExternals Value S) (server : MailServer S) where
  tool_response-Answers :
      (id : Value) (r : Result Value String) → Answers id (tool_response ext server id r)
  tool_response-Answers id (ok v) = (refl, refl, inl (v, refl, refl))
  tool_response-Answers id (err m) = (refl, refl, inr (_, refl, refl))

  call_named-Answers :
      (id params : Value) (name : Option String) → Answers id (call_named ext server id params name)
  call_named-Answers id params none = (refl, refl, inr (_, refl, refl))
  call_named-Answers id params (some n) = tool_response-Answers id _

  handle_tools_call-Answers :
      (id : Value) (params : Option Value) → Answers id (handle_tools_call ext server id params)
  unfolding handle_tools_call
  handle_tools_call-Answers id none = (refl, refl, inr (_, refl, refl))
  handle_tools_call-Answers id (some p) = elim (Bool-cases (ext.tools.json.is_object p)) [
    | inl good ↦ rw good (call_named-Answers id p _)
    | inr bad ↦ rw bad (refl, refl, inr (_, refl, refl))
  ]

  dispatch-Answers :
      (id : Value) (method : String) (params : Option Value)
      → Answers id (dispatch ext server id method params)
  unfolding dispatch
  dispatch-Answers id method params = elim (Bool-cases (method == "initialize")) [
    | inl a ↦ rw a (refl, refl, inl (_, refl, refl))
    | inr a ↦ elim (Bool-cases (method == "ping")) [
      | inl b ↦ rw (a, b) (refl, refl, inl (_, refl, refl))
      | inr b ↦ elim (Bool-cases (method == "tools/list")) [
        | inl c ↦ rw (a, b, c) (refl, refl, inl (_, refl, refl))
        | inr c ↦ elim (Bool-cases (method == "tools/call")) [
          | inl d ↦ rw (a, b, c, d) (handle_tools_call-Answers id params)
          | inr d ↦ rw (a, b, c, d) (refl, refl, inr (_, refl, refl))
        ]
      ]
    ]
  ]

  owed :
      (v m : String) (id params : Option Value)
      → IsOwed id
          (handle_request ext server (record { jsonrpc = v; id = id; method = m; params = params }))
  unfolding handle_request
  owed v m none params = elim (Bool-cases (v == "2.0")) [ inl a ↦ rw a refl | inr a ↦ rw a refl ]
  owed v m (some id) params = elim (Bool-cases (v == "2.0")) [
    | inl a ↦ rw a (_, refl, dispatch-Answers id m params)
    | inr a ↦ rw a (_, refl, (refl, refl, inr (_, refl, refl)))
  ]

  -- A notification, also one of another version, is never answered; every other request is answered
  -- by one response of its own id, with either a result or an error.
  pub handle_request-IsOwed : (req : Request Value) → IsOwed req.id (handle_request ext server req)
  handle_request-IsOwed req = owed req.jsonrpc req.method req.id req.params

  -- The replies to lines, each followed by a newline.
  abbrev pub replies_to : List String → List String
  replies_to [] = []
  replies_to (line ∷ lines) =
      (if is_blank line then [] else reply_of (process_line ext server line)) ++ replies_to lines

  -- The loop answers each line in turn, and skips blank ones; what was written before the input or
  -- its lines go on stays.
  pub run-replies_to :
      (lines : List String) (rest : List (Result String String)) (w : List String)
      → run ext server keep kept (map ok lines ++ rest) w
        ≡ run ext server keep kept rest (w ++ replies_to lines)
  unfolding run
  run-replies_to [] rest w = rw (append-nil w) refl
  run-replies_to (line ∷ lines) rest w = elim (Bool-cases (is_blank line)) [
    | inl blank ↦ rw blank (run-replies_to lines rest w)
    | inr full ↦ elim (Option-cases (process_line ext server line)) [
      | inl quiet ↦ rw (full, quiet) (run-replies_to lines rest w)
      | inr (text, loud) ↦
          rw (full, loud)
            (run-replies_to lines rest ((w ++ text ∷ []) ++ "\n" ∷ [])
              ∙ rw
                  (
                    append_assoc w (text ∷ []) ("\n" ∷ []),
                    append_assoc w (text ∷ "\n" ∷ []) (replies_to lines),
                  )
                  refl)
    ]
  ]
