-- ===== src/Broker.antt =====
-- crates/core/src/broker.rs: the slots of the supervised servers and the broker's state.
-- A method on `&mut self` returns the new value; `server_mut` is given what is done to the slot.
pub mod ColdStart
pub mod Frame
mod Tests
use mcp_lock.Prelude.{
  ℕ, String, Bool, true, false, Option, none, some, List, [], ◌∷◌, map, ◌==◌, eq_string, find,
  count_if, if◌then◌else◌,
}
use mcp_lock.Prelude.BTreeMap.{BTreeMap, keys, collect, is_some}
use mcp_lock.Manifest.{ServerManifest, Manifest, LoadedManifest}
use mcp_lock.Policy.Grant.{Elevation, Timestamp}
use mcp_lock.Policy.{ClassifiedTool, ServerState, running, classify_advertised, resolve_exposure}

pub record ServerSlot : Type 0 where
  pub id : String
  pub tools : List ClassifiedTool
  pub state : ServerState
  pub elevation : Option Elevation

abbrev pub new_running : String → List ClassifiedTool → ServerSlot
new_running id tools = record { id = id; tools = tools; state = running; elevation = none }

abbrev pub set_tools : List ClassifiedTool → ServerSlot → ServerSlot
set_tools tools s = record s { tools = tools }

abbrev pub exposed : ServerSlot → Timestamp → List String
exposed s now = resolve_exposure s.tools s.state s.elevation now

abbrev pub grant_elevation : Elevation → ServerSlot → ServerSlot
grant_elevation elevation s = record s { elevation = some elevation }

abbrev pub revoke_elevation : ServerSlot → ServerSlot
revoke_elevation s = record s { elevation = none }

abbrev pub fail_closed : ServerSlot → ServerSlot
fail_closed s = record s { elevation = none }

abbrev pub set_state : ServerState → ServerSlot → ServerSlot
set_state state s = record s { state = state }

pub record BrokerState : Type 0 where
  pub servers : List ServerSlot

abbrev pub cold_start : List ServerSlot → BrokerState
cold_start servers = record { servers = servers }

abbrev pub slot_of_manifest : ServerManifest → ServerSlot
slot_of_manifest s = new_running s.id (classify_advertised s.tools (keys s.tools))

unfoldable pub from_manifest : LoadedManifest → BrokerState
from_manifest loaded = record { servers = map slot_of_manifest loaded.manifest.servers }

unfoldable pub server : BrokerState → String → Option ServerSlot
server b id = find (λ s. s.id == id) b.servers

-- The first slot of that id is the one that changes.
unfoldable pub update_slot : String → (ServerSlot → ServerSlot) → List ServerSlot → List ServerSlot
update_slot id f [] = []
update_slot id f (s ∷ ss) = if s.id == id then f s ∷ ss else s ∷ update_slot id f ss

abbrev pub updated :
    BrokerState → String → (ServerSlot → ServerSlot) → Option ServerSlot → Option BrokerState
updated b id f none = none
updated b id f (some _) = some (record { servers = update_slot id f b.servers })

-- `none` where no slot has that id.
unfoldable pub server_mut : BrokerState → String → (ServerSlot → ServerSlot) → Option BrokerState
server_mut b id f = updated b id f (server b id)

unfoldable pub elevation_count : BrokerState → ℕ
elevation_count b = count_if (λ s. is_some s.elevation) b.servers

unfoldable pub exposure_snapshot : BrokerState → Timestamp → BTreeMap (List String)
exposure_snapshot b now = collect (map (λ s. (s.id, exposed s now)) b.servers)
