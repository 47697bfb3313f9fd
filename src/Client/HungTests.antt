-- ===== src/Client/HungTests.antt =====
-- A call of a child that hangs, and of one that answers.
use mcp_lock.Prelude.{
  ℕ, ◌≤◌, String, ◌≡◌, ◌↔◌, refl, inl, inr, none, some, List, [], ◌∷◌, Memᴰ, arith,
}
use mcp_lock.Prelude.Bytes.{is_blank}
use mcp_lock.Prelude.BTreeMap.{get}
use mcp_lock.Prelude.Results.{Result, ok, err}
use mcp_lock.Prelude.Text.{split_once, sort}
use mcp_lock.Manifest.{read, ServerManifest}
use mcp_lock.Policy.{running, resolve_exposure}
use mcp_lock.Broker.{ServerSlot, server}
use mcp_lock.Child.{timeout}
use mcp_lock.Aggregator.Data.{Aggregator, child}
use mcp_lock.Aggregator.Calls.{call}
use mcp_lock.Aggregator.Gate.{IsAdmitted}
use mcp_lock.Aggregator.Faults.{exposed_by}
use mcp_lock.Client.Hung.{IsAsked, Answers, call-Answers_iff, hung_closes}
use mcp_lock.Client.Reap.{Waited}
use mcp_lock.Client.Requests.{write_line}
use mcp_lock.Client.Supervised.{Process, Supervised, supervised}
use mcp_lock.Client.Tests.{ext, client}

abbrev launch : ℕ → ServerManifest → Result (Process (List String)) String × ℕ
launch n server = (err "no such file", n)

abbrev late : Supervised (List String)
late = record {
  client = record client {
    rx = record {
      arrivals = record { at = 5; item = ok "note" } ∷ record { at = 400; item = ok "a" } ∷ [];
      closed = none;
    };
  };
  try_wait = λ t. Waited.running;
  now = 0;
}

abbrev slot : ServerSlot
slot = record {
  id = "mail";
  tools = record { name = "search"; class = read } ∷ [];
  state = running;
  elevation = none;
}

abbrev aggregator : Aggregator String (Supervised (List String)) ℕ
aggregator = record {
  manifest = record { manifest = record { servers = [] }; integrity_sha256 = "" };
  spawner = 0;
  state = record { servers = slot ∷ [] };
  children = ("mail", late) ∷ [];
  tool_defs = [];
  confirmations = [];
}

admitted : IsAdmitted aggregator "mail.search" 7
unfolding split_once server resolve_exposure sort
admitted = record {
  server_id = "mail";
  tool = "search";
  named = refl;
  slot = slot;
  found = refl;
  open_now = Memᴰ.head refl;
  approved = inl refl;
  child_now = late;
  alive = refl;
}

call-Answers_iff_example :
    ((call (supervised ext launch) aggregator "mail.search" "x" 7).0 ≡ ok "r") ↔ (
      (g : IsAdmitted aggregator "mail.search" 7) × IsAsked ext g.child_now g.tool "x"
      × Answers ext g.child_now g.tool "x" "r")
call-Answers_iff_example = call-Answers_iff ext launch aggregator "mail.search" "x" 7 "r"

asked : IsAsked ext late "search" "x"
unfolding write_line
asked = refl

hung_closes_example :
    let (r, after) = call (supervised ext launch) aggregator "mail.search" "x" 7 in
    (r ≡ err (child timeout))
    × ((c : Supervised (List String)) × (get "mail" after.children ≡ some c) × (c.now ≤ 203))
    × (exposed_by after.state "mail" 9 ≡ [])
unfolding admitted is_blank write_line
hung_closes_example =
    hung_closes ext launch aggregator "mail.search" "x" 7 admitted 9 asked
      (inr (omega arith, inr ("note", refl, λ e. cc), inl (omega arith)))
