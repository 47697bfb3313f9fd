-- ===== src/Broker/Frame.antt =====
-- What an access to one slot changes.
use mcp_lock.Prelude.{
  String, ◌≡◌, ◌↔◌, Option, none, some, List, [], ◌∷◌, arith, ◌==◌, eq_string, find, if◌then◌else◌,
}
use text.Mathlib.TextEquality.{eq_iff}
use mcp_lock.Broker.{ServerSlot, BrokerState, server, update_slot, server_mut}

-- A function on slots that keeps the id.
abbrev pub KeepsId : (ServerSlot → ServerSlot) → Type 0
KeepsId f = (s : ServerSlot) → (f s).id ≡ s.id

abbrev pub map_slot : (ServerSlot → ServerSlot) → Option ServerSlot → Option ServerSlot
map_slot f none = none
map_slot f (some s) = some (f s)

pub find-update_slot :
    (id j : String) (f : ServerSlot → ServerSlot) (ss : List ServerSlot)
    → KeepsId f
    → find (λ s. s.id == j) (update_slot id f ss)
      ≡ (if id == j then map_slot f (find (λ s. s.id == j) ss) else find (λ s. s.id == j) ss)
unfolding update_slot
find-update_slot id j f [] k = ground arith
find-update_slot id j f (s ∷ ss) k = ground (
  arith,
  k s,
  eq_iff id j,
  eq_iff s.id id,
  eq_iff s.id j,
  eq_iff (f s).id j,
  find-update_slot id j f ss k,
)

-- An access to the slot of one id fails exactly when no slot has it; else the slot of that id is
-- changed by the function given, and every other slot is as it was.
pub server-server_mut :
    (b c : BrokerState) (id j : String) (f : ServerSlot → ServerSlot)
    → KeepsId f
    → server_mut b id f ≡ some c
    → server c j ≡ (if id == j then map_slot f (server b j) else server b j)
unfolding server_mut server
server-server_mut b c id j f k h = ground (arith, find-update_slot id j f b.servers k)

pub server_mut-eq-none_iff :
    (b : BrokerState) (id : String) (f : ServerSlot → ServerSlot)
    → (server_mut b id f ≡ none) ↔ (server b id ≡ none)
unfolding server_mut
server_mut-eq-none_iff b id f = ground arith
