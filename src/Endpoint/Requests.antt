-- ===== src/Endpoint/Requests.antt =====
-- crates/transport/src/endpoint.rs: one request. What tiny_http and serde_json do is a parameter, and
-- so is the handler behind the endpoint, with its state.
use Prim.Native.Char.{code}
use mcp_lock.Prelude.{
  ℕ, ◌*◌, String, Bool, Option, none, some, List, [], ◌∷◌, find, nat_eq, if◌then◌else◌,
}
use mcp_lock.Prelude.Bytes.{is_whitespace, is_blank}
use mcp_lock.Prelude.Results.{Result, ok, err}
use mcp_lock.Auth.{ValidatedClient, AuthError, StaticBearerValidator, validate}
use mcp_lock.Endpoint.Notifier.{Notifier, subscribe}

abbrev pub max_body_bytes : ℕ
max_body_bytes = 4 * 1024 * 1024

pub data Method : Type 0 where
  post get other : Method

pub record Request (Body : Type 0) : Type 0 where
  pub headers : List (String × String)
  pub method : Method
  pub body : Body

pub data Response : Type 0 where
  reply : (status : ℕ) (headers : List (String × String)) (body : String) → Response
  stream : (headers : List (String × String)) → (subscriber : ℕ) → Response

abbrev pub status_of : Response → ℕ
status_of (Response.reply status headers body) = status
status_of (Response.stream headers subscriber) = 200

-- `equiv` compares the names of header fields; `read_body` is the text of at most so many bytes of a
-- body, if it can be read; `parse_error`, `invalid_request` and `internal_error` are the texts that
-- serde_json prints for the three fixed errors.
pub record HttpExternals (Value Body H : Type 0) : Type 0 where
  pub equiv : String → String → Bool
  pub read_body : Body → ℕ → Option String
  pub from_str : String → Option Value
  pub to_json : Value → Option String
  pub is_array : Value → Bool
  pub get : Value → String → Option Value
  pub parse_error : String
  pub invalid_request : String
  pub internal_error : String
  pub handle : H → Value → ValidatedClient → Value × H

pub record HttpEndpoint (H : Type 0) : Type 0 where
  pub validator : StaticBearerValidator
  pub handler : H
  pub notifier : Notifier

-- `str::strip_prefix`.
unfoldable pub strip_prefix : String → String → Option String
strip_prefix String.[] s = some s
strip_prefix (String.◌∷◌ p ps) String.[] = none
strip_prefix (String.◌∷◌ p ps) (String.◌∷◌ c s) =
    let rest = strip_prefix ps s in if nat_eq (code p) (code c) then rest else none

-- `str::trim`.
unfoldable pub trim_start : String → String
trim_start String.[] = ""
trim_start (String.◌∷◌ c s) =
    let rest = trim_start s in if is_whitespace (code c) then rest else String.◌∷◌ c s

unfoldable pub trim_end : String → String
unfolding is_blank
trim_end String.[] = ""
trim_end (String.◌∷◌ c s) =
    let rest = trim_end s in if is_blank (String.◌∷◌ c s) then "" else String.◌∷◌ c rest

abbrev pub trim : String → String
trim s = trim_start (trim_end s)

abbrev or_else : Option String → Option String → Option String
or_else none b = b
or_else (some a) b = some a

abbrev trimmed : Option String → Option String
trimmed none = none
trimmed (some t) = some (trim t)

abbrev token_in : Option (String × String) → Option String
token_in none = none
token_in (some (field, value)) =
    trimmed (or_else (strip_prefix "Bearer " value) (strip_prefix "bearer " value))

module _ {Value Body H : Type 0} (ext : HttpExternals Value Body H) where
  unfoldable pub bearer_token : Request Body → Option String
  bearer_token request = token_in (find (λ h. ext.equiv h.0 "Authorization") request.headers)

  abbrev pub json_response : String → ℕ → Response
  json_response body status = Response.reply status (("Content-Type", "application/json") ∷ []) body

  abbrev or_internal_error : Option String → String
  or_internal_error none = ext.internal_error
  or_internal_error (some s) = s

  abbrev pub answer :
      HttpEndpoint H → ValidatedClient → Value → Option Value → Response × HttpEndpoint H
  answer ep client parsed none = (Response.reply 202 [] "", ep)
  answer ep client parsed (some id) =
      let (response, handler) = ext.handle ep.handler parsed client in
      (
        json_response (or_internal_error (ext.to_json response)) 200,
        record ep { handler = handler },
      )

  abbrev pub post_value :
      HttpEndpoint H → ValidatedClient → Option Value → Response × HttpEndpoint H
  post_value ep client none = (json_response ext.parse_error 400, ep)
  post_value ep client (some parsed) =
      if ext.is_array parsed
      then (json_response ext.invalid_request 400, ep)
      else answer ep client parsed (ext.get parsed "id")

  abbrev pub post_body :
      HttpEndpoint H → ValidatedClient → Option String → Response × HttpEndpoint H
  post_body ep client none = (json_response ext.parse_error 400, ep)
  post_body ep client (some body) = post_value ep client (ext.from_str body)

  unfoldable pub handle_post :
      HttpEndpoint H → Request Body → ValidatedClient → Response × HttpEndpoint H
  handle_post ep request client = post_body ep client (ext.read_body request.body max_body_bytes)

  -- `channel` names the new channel.
  abbrev pub handle_sse : HttpEndpoint H → ℕ → Response × HttpEndpoint H
  handle_sse ep channel = (
    Response.stream (("Content-Type", "text/event-stream") ∷ ("Cache-Control", "no-cache") ∷ [])
        channel,
    record ep { notifier = subscribe ep.notifier channel },
  )

  abbrev pub by_method :
      HttpEndpoint H → Request Body → ℕ → ValidatedClient → Method → Response × HttpEndpoint H
  by_method ep request channel client post = handle_post ep request client
  by_method ep request channel client get = handle_sse ep channel
  by_method ep request channel client other = (Response.reply 405 [] "", ep)

  abbrev pub authenticated :
      HttpEndpoint H
      → Request Body
      → ℕ
      → Result ValidatedClient AuthError
      → Response × HttpEndpoint H
  authenticated ep request channel (err e) =
      (Response.reply 401 (("WWW-Authenticate", "Bearer") ∷ []) "unauthorized", ep)
  authenticated ep request channel (ok client) = by_method ep request channel client request.method

  unfoldable pub handle_request : HttpEndpoint H → Request Body → ℕ → Response × HttpEndpoint H
  handle_request ep request channel =
      authenticated ep request channel (validate ep.validator (bearer_token request))
