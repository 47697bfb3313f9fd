-- ===== src/Broker/ColdStart.antt =====
-- What a broker state holds right after a start.
use mcp_lock.Prelude.{
  String, ◌≡◌, refl, sym, ap, subst, none, some, List, [], ◌∷◌, map, Memᴰ, All, count_if,
}
use mathlib.Core.List.Memᴰ as MemD
use mcp_lock.Prelude.BTreeMap.{get, keys, is_some}
use mcp_lock.Manifest.{read, ServerManifest, LoadedManifest}
use mcp_lock.Policy.Grant.{Timestamp}
use mcp_lock.Policy.{running}
use mcp_lock.Policy.Exposure.{default_deny}
use mcp_lock.Broker.{ServerSlot, exposed, slot_of_manifest, from_manifest, elevation_count}

-- A slot that runs and holds no elevation.
pub record IsCold (s : ServerSlot) : Type 0 where
  pub runs : s.state ≡ running
  pub unelevated : s.elevation ≡ none

cold : (servers : List ServerManifest) → All IsCold (map slot_of_manifest servers)
cold [] = tt
cold (s ∷ ss) = (record { runs = refl; unelevated = refl }, cold ss)

count-zero :
    (slots : List ServerSlot) → All IsCold slots → count_if (λ s. is_some s.elevation) slots ≡ 0
count-zero [] h = refl
count-zero (s ∷ ss) h = rw h.0.unelevated (count-zero ss h.1)

-- After a start from a manifest, whatever happened before, there is no elevation, and each slot
-- runs without one.
pub from_manifest-IsCold :
    (loaded : LoadedManifest)
    → (elevation_count (from_manifest loaded) ≡ 0) × All IsCold (from_manifest loaded).servers
unfolding from_manifest elevation_count
from_manifest-IsCold loaded =
    (count-zero _ (cold loaded.manifest.servers), cold loaded.manifest.servers)

-- After a start from a manifest, what a slot exposes at any time is a tool that an entry of the
-- manifest with the slot's id declares read-only.
pub from_manifest_cold_start :
    (loaded : LoadedManifest) (slot : ServerSlot) (now : Timestamp) (name : String)
    → Memᴰ slot (from_manifest loaded).servers
    → Memᴰ name (exposed slot now)
    → (s : ServerManifest) × Memᴰ s loaded.manifest.servers
      × (slot.id ≡ s.id)
      × (get name s.tools ≡ some read)
unfolding from_manifest
from_manifest_cold_start loaded slot now name at m =
    let (s, listed, e) = MemD.of_map slot_of_manifest loaded.manifest.servers at in
    let same : Memᴰ name (exposed (slot_of_manifest s) now) =
      subst (λ x. Memᴰ name (exposed x now)) (sym e) m in
    (
      s,
      listed,
      ap (λ x. x.id) (sym e),
      (default_deny s.tools (keys s.tools) running none now name refl same).0,
    )
