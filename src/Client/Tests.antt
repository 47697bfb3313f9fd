-- ===== src/Client/Tests.antt =====
-- Tests of the client of a child, and its theorems at concrete inputs. A message is a text: the
-- letter `a` answers request 1, and any other text is a message with no id.
use mcp_lock.Prelude.{
  ℕ, ◌+◌, String, ◌≡◌, ◌↔◌, refl, false, none, some, List, [], ◌∷◌, ◌++◌, arith, ◌==◌, eq_string,
  if◌then◌else◌,
}
use mcp_lock.Prelude.Bytes.{is_blank}
use mcp_lock.Prelude.Results.{ok, err}
use mcp_lock.Child.{timeout}
use mcp_lock.Json.{Json, JsonReads, Kind}
use mcp_lock.Client.Requests.{StdioMcpClient, ClientExternals, judge, wait, write_line, request}
use mcp_lock.Client.Answers.{IsAnswered}
use mcp_lock.Client.Timely.{write_of, request-eq-ok_iff}
use mcp_lock.Client.Lines.{read_lines, read_until}
use mcp_lock.Client.Framing.{frames, read_lines-frames}
use mcp_lock.Client.Reap.{Waited, EndsAt, drop_client, drop_client_ends, drop_reap_timeout}

abbrev json : Json String
json = record {
  get = λ v k.
      if v == "a"
      then (if k == "id" then some "one" else if k == "result" then some "r" else none)
      else none;
  as_str = some;
  is_object = λ v. false;
  null = "null";
  bool = λ b. "bool";
  integer = λ n. "number";
  string = λ s. s;
  array = λ vs. "array";
  object = λ es. "object";
}

abbrev reads : JsonReads String
reads = record {
  kind = λ v. if v == "one" then Kind.number (some 1) else Kind.other;
  as_i64 = λ v. none;
  as_array = λ v. none;
  from_str = ok;
  to_string = ok;
}

abbrev pub ext : ClientExternals String (List String)
ext = record {
  json = json;
  reads = reads;
  write_all = λ p s. (ok tt, 1, p ++ s ∷ []);
  flush = λ p. (ok tt, 1, p);
  version = "1";
}

abbrev pub client : StdioMcpClient (List String)
client = record {
  stdin = [];
  rx = record {
    arrivals =
        record { at = 5; item = ok "note" }
        ∷ record { at = 9; item = ok "a" }
        ∷ record { at = 400; item = ok "a" }
        ∷ [];
    closed = none;
  };
  next_id = 1;
  timeout = 200;
}

answered : (request ext client 0 "ping" "p").0 ≡ ok "r"
unfolding request wait judge write_line is_blank
answered = refl

answered_then : (request ext client 0 "ping" "p").1 ≡ 9
unfolding request wait judge write_line is_blank
answered_then = refl

abbrev second : StdioMcpClient (List String)
second = (request ext client 0 "ping" "p").2

late_reply : (request ext second 9 "ping" "p").0 ≡ err timeout
unfolding request wait judge write_line is_blank
late_reply = refl

two_lines :
    read_lines (λ bs. "line") 9 none (b'a' ∷ 10 ∷ b'b' ∷ 10 ∷ []) ≡ ok "line" ∷ ok "line" ∷ []
unfolding read_lines read_until
two_lines = refl

stubborn : drop_client (λ t. Waited.running) 0 ≡ some 2000
unfolding drop_client
stubborn = refl

request-eq-ok_iff_example :
    ((request ext client 0 "ping" "p").0 ≡ ok "r")
    ↔ (((write_of ext client 0 "ping" "p").0 ≡ ok tt) × IsAnswered ext 1 203 "r" client.rx.arrivals)
unfolding write_line
request-eq-ok_iff_example = request-eq-ok_iff ext client 0 "ping" "p" "r"

read_lines-frames_example :
    read_lines (λ bs. "line") 3 none (frames ((b'a' ∷ []) ∷ (b'b' ∷ []) ∷ []) ++ b'c' ∷ [])
    ≡ ok "line" ∷ ok "line" ∷ read_lines (λ bs. "line") 1 none (b'c' ∷ [])
read_lines-frames_example =
    read_lines-frames (λ bs. "line") ((b'a' ∷ []) ∷ (b'b' ∷ []) ∷ []) 1 none (b'c' ∷ [])
      (
        ((λ e. absurd (omega arith), tt), omega arith),
        (((λ e. absurd (omega arith), tt), omega arith), tt),
      )

drop_client_ends_example :
    (end : ℕ) × EndsAt
      (λ t. Waited.running)
      (7 + drop_reap_timeout)
      (drop_client (λ t. Waited.running) 7)
      end
drop_client_ends_example = drop_client_ends (λ t. Waited.running) 7
