-- ===== src/Aggregator/Tests.antt =====
-- Tests of the aggregator with a child in memory, and its theorems at concrete inputs. The child is
-- true while it lives, it echoes its arguments, and the values are texts.
use mcp_lock.Prelude.{
  ℕ, suc, String, ◌≡◌, refl, ◌↔◌, Bool, true, false, Option, none, some, List, [], ◌∷◌, Memᴰ, arith,
  All,
}
use mcp_lock.Prelude.Text.{split_once, contains, sort, ◌+++◌}
use mcp_lock.Prelude.BTreeMap.{get}
use mcp_lock.Prelude.Results.{Result, ok, err}
use mcp_lock.Manifest.{read, confirm, ServerManifest, LoadedManifest, server as manifest_server}
use mcp_lock.Policy.{classify, classify_advertised, resolve_exposure, running}
use mcp_lock.Policy.Grant.{until_revoked, is_active}
use mcp_lock.Broker.{ServerSlot, grant_elevation, server, update_slot, server_mut}
use mcp_lock.Broker.Frame.{map_slot}
use mcp_lock.Json.{JsonObjects}
use mcp_lock.Child.{ChildError, exited, McpChild}
use mcp_lock.Aggregator.Data.{
  namespace_sep, unknown_tool, not_exposed, not_confirmed, Aggregator, Confirmation,
}
use mcp_lock.Aggregator.Build.{spawn_and_classify, build_servers, build}
use mcp_lock.Aggregator.Lifecycle.{set_state, stop, start, approve_action}
use mcp_lock.Aggregator.Calls.{call_in, call}
use mcp_lock.Aggregator.Listing.{listed_names, listed_slots, aggregated_tools}
use mcp_lock.Aggregator.Ids.{IsRoutable, build-eq-ok_iff}
use mcp_lock.Aggregator.Gate.{IsAdmitted, call-eq-ok_iff}
use mcp_lock.Aggregator.Confirmations.{confirmed_once}
use mcp_lock.Aggregator.Faults.{closed, exits, fault_closes, exposed_by}
use mcp_lock.Aggregator.Actions.{built}
use mcp_lock.Aggregator.Safety.{ungranted_read_only}
use mcp_lock.Aggregator.Served.{ungranted_calls_read_only}
use mcp_lock.Aggregator.Routes.{IsListed, mem-aggregated_tools}

abbrev ask : Bool → String → String → Result String ChildError × Bool
ask true tool arguments = (ok (tool +++ arguments), true)
ask false tool arguments = (err exited, false)

abbrev ops : McpChild String Bool ℕ
ops = record {
  list_tools = λ c. (
    ok (
        record { name = "search"; definition = "s" }
        ∷ record { name = "send"; definition = "m" }
        ∷ []),
    c,
  );
  call_tool = ask;
  is_alive = λ c. (c, c);
  spawn = λ n s. (ok true, suc n);
}

abbrev mail : ServerManifest
mail = record {
  id = "mail";
  command = "m";
  args = [];
  env = [];
  tools = ("search", read) ∷ ("send", confirm) ∷ [];
}

abbrev loaded : LoadedManifest
loaded = record { manifest = record { servers = mail ∷ [] }; integrity_sha256 = "" }

abbrev slot : ServerSlot
slot = record {
  id = "mail";
  tools = record { name = "search"; class = read } ∷ record { name = "send"; class = confirm } ∷ [];
  state = running;
  elevation = none;
}

-- The aggregator of that manifest, its child alive or not, its slot as given.
abbrev aggregator : Bool → ServerSlot → List Confirmation → Aggregator String Bool ℕ
aggregator alive s cs = record {
  manifest = loaded;
  spawner = 1;
  state = record { servers = s ∷ [] };
  children = ("mail", alive) ∷ [];
  tool_defs = ("mail", ("search", "s") ∷ ("send", "m") ∷ []) ∷ [];
  confirmations = cs;
}

abbrev named : Option String → String
named none = ""
named (some name) = name

-- A text is the object whose name it is.
abbrev objects : JsonObjects String
objects = record {
  as_object = λ v. some (("name", v) ∷ []);
  of_object = λ entries. named (get "name" entries);
  string = λ s. s;
}

abbrev open_slot : ServerSlot
open_slot = grant_elevation (until_revoked 0) slot

all : Unit {0}
unfolding classify classify_advertised resolve_exposure sort is_active until_revoked server
    update_slot server_mut manifest_server spawn_and_classify build_servers build set_state stop
    start approve_action call_in call listed_names listed_slots aggregated_tools split_once contains
all = tt

fresh : build ops loaded 0 ≡ ok (aggregator true slot [])
unfolding all
fresh = refl

searched : (call ops (aggregator true slot []) "mail.search" "q" 5).0 ≡ ok "searchq"
unfolding all
searched = refl

gated :
    call ops (aggregator true slot []) "mail.send" "q" 5
    ≡ (err (not_exposed "mail.send"), aggregator true slot [])
unfolding all
gated = refl

unconfirmed :
    (call ops (aggregator true open_slot []) "mail.send" "q" 5).0 ≡ err (not_confirmed "mail.send")
unfolding all
unconfirmed = refl

unknown : (call ops (aggregator true slot []) "search" "q" 5).0 ≡ err (unknown_tool "search")
unfolding all
unknown = refl

abbrev approved : Aggregator String Bool ℕ
approved =
    aggregator true open_slot (record { server_id = "mail"; tool = "send"; approved_at = 3 } ∷ [])

listing : aggregated_tools objects (aggregator true slot []) 5 ≡ "mail.search" ∷ []
unfolding all
listing = refl

-- A stop and a start leave the elevation in place.
abbrev restarted : Aggregator String Bool ℕ
restarted = (start ops (stop (aggregator true open_slot []) "mail").1 "mail").1

restarted_elevated : server restarted.state "mail" ≡ some open_slot
unfolding all
restarted_elevated = refl

call-eq-ok_iff_example :
    ((call ops (aggregator true slot []) "mail.search" "q" 5).0 ≡ ok "searchq") ↔ (
      (g : IsAdmitted (aggregator true slot []) "mail.search" 5) × ((ops.call_tool g.child_now
          g.tool "q").0
        ≡ ok "searchq"))
call-eq-ok_iff_example = call-eq-ok_iff ops (aggregator true slot []) "mail.search" "q" 5 "searchq"

confirmed_once_example :
    ¬ ((call ops (call ops approved "mail.send" "q" 5).1 "mail.send" "r" 6).0 ≡ ok "sendr")
unfolding all
confirmed_once_example =
    confirmed_once ops approved "mail.send" "mail" "send" open_slot "q" "r" 5 6 "sendq" "sendr" refl
      refl refl (omega arith) refl

fault_closes_example :
    let after = (call ops (aggregator false open_slot []) "mail.search" "q" 5).1.state in
    (server after "mail" ≡ map_slot closed (some open_slot)) × (exposed_by after "mail" 9 ≡ [])
unfolding all
fault_closes_example =
    fault_closes ops (aggregator false open_slot []) "mail.search" "q" 5 9 "mail" "search" exited
      "mail" refl refl exits

ungranted_read_only_example :
    (entry : ServerManifest) × Memᴰ entry loaded.manifest.servers
    × (slot.id ≡ entry.id)
    × (get "search" entry.tools ≡ some read)
unfolding all
ungranted_read_only_example =
    ungranted_read_only loaded (aggregator true slot []) slot 5 "search" (built ops 0 _ fresh)
      (Memᴰ.head refl) (Memᴰ.head refl)

mem-aggregated_tools_example :
    Memᴰ "mail.search" (aggregated_tools objects (aggregator true slot []) 5)
    ↔ IsListed objects (aggregator true slot []) 5 "mail.search"
mem-aggregated_tools_example =
    mem-aggregated_tools objects (aggregator true slot []) 5 "mail.search"

build-eq-ok_iff_example :
    ((a : Aggregator String Bool ℕ) × (build ops loaded 0 ≡ ok a))
    ↔ All IsRoutable loaded.manifest.servers
build-eq-ok_iff_example = build-eq-ok_iff ops loaded 0

ungranted_calls_read_only_example :
    (server_id : String) × (tool : String) × (split_once "mail.search" namespace_sep
      ≡ some (server_id, tool))
    × (entry : ServerManifest) × Memᴰ entry loaded.manifest.servers
    × (entry.id ≡ server_id)
    × (get tool entry.tools ≡ some read)
unfolding all
ungranted_calls_read_only_example =
    ungranted_calls_read_only loaded ops (aggregator true slot []) "mail.search" "q" 5 "searchq"
      (built ops 0 _ fresh) refl
