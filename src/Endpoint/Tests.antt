-- ===== src/Endpoint/Tests.antt =====
-- Tests of the endpoint, and its theorems at concrete inputs. A body is its text, a value is a text
-- too, and the handler counts the requests that it is given.
use mcp_lock.Prelude.{
  ℕ, suc, String, ◌≡◌, refl, ◌≢◌, ◌↔◌, true, false, some, [], ◌∷◌, ◌==◌, eq_string,
}
use mcp_lock.Prelude.Bytes.{as_bytes, is_blank}
use mcp_lock.Prelude.Sync.{new_mutex}
use mcp_lock.Auth.{new, diff_from, constant_time_eq, validate}
use mcp_lock.Endpoint.Notifier.{Sender, subscribe, notify}
use mcp_lock.Endpoint.Stream.{timeout, keepalive_frame, read}
use mcp_lock.Endpoint.Requests.{
  Request, Method, post, Response, status_of, HttpExternals, HttpEndpoint, strip_prefix, trim_start,
  trim_end, bearer_token, handle_post, handle_request,
}
use mcp_lock.Endpoint.Gate.{Presents, handle_request_gate}

abbrev ext : HttpExternals String String ℕ
ext = record {
  equiv = λ a b. a == b;
  read_body = λ b n. some b;
  from_str = some;
  to_json = some;
  is_array = λ v. v == "[]";
  get = λ v k. some "1";
  parse_error = "parse error";
  invalid_request = "invalid request";
  internal_error = "internal error";
  handle = λ n v client. (v, suc n);
}

abbrev endpoint : HttpEndpoint ℕ
endpoint = record {
  validator = record { expected = 104 ∷ 105 ∷ []; client_id = "claude" };
  handler = 0;
  notifier = record { subscribers = new_mutex [] };
}

abbrev request : String → Method → Request String
request value m = record {
  headers = ("Host", "h") ∷ ("Authorization", value) ∷ [];
  method = m;
  body = "ping";
}

endpoint_all : Unit {0}
unfolding strip_prefix trim_start trim_end is_blank bearer_token handle_post handle_request new
    validate constant_time_eq diff_from as_bytes subscribe notify read
endpoint_all = tt

token_read : bearer_token ext (request "bearer  hi " post) ≡ some "hi"
unfolding endpoint_all
token_read = refl

served : handle_request ext endpoint (request "Bearer hi" post) 1 ≡ (
  Response.reply 200 (("Content-Type", "application/json") ∷ []) "ping",
  record endpoint { handler = 1 },
)
unfolding endpoint_all
served = refl

basic_refused : status_of (handle_request ext endpoint (request "Basic hi" post) 1).0 ≡ 401
unfolding endpoint_all
basic_refused = refl

keepalive : (read (record { buf = 7 ∷ []; pos = 1 }) 99 timeout).0 ≡ keepalive_frame
unfolding endpoint_all
keepalive = refl

handle_request_gate_example :
    let response = (handle_request ext endpoint (request "Bearer ho" post) 1).0 in
    ((status_of response ≢ 401) ↔ Presents ext "hi" (bearer_token ext (request "Bearer ho" post)))
    × ((status_of response ≡ 401) ↔ (
        handle_request ext endpoint (request "Bearer ho" post) 1
        ≡ (Response.reply 401 (("WWW-Authenticate", "Bearer") ∷ []) "unauthorized", endpoint)))
unfolding new as_bytes
handle_request_gate_example =
    handle_request_gate ext endpoint (request "Bearer ho" post) 1 "hi" "claude" refl

abbrev here : Sender
here = record { id = 1; connected = true; sent = [] }

abbrev away : Sender
away = record { id = 2; connected = false; sent = [] }
