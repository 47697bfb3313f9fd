-- ===== src/Broker/Tests.antt =====
-- Tests of the broker state, and its theorems at concrete inputs.
use mcp_lock.Prelude.{◌≡◌, refl, [], ◌∷◌}
use mcp_lock.Prelude.Text.{sort}
use mcp_lock.Manifest.{read, write, confirm, ServerManifest, LoadedManifest}
use mcp_lock.Policy.Grant.{for_duration, is_active}
use mcp_lock.Policy.{classify, classify_advertised, resolve_exposure}
use mcp_lock.Broker.{
  from_manifest, server, update_slot, server_mut, elevation_count, exposure_snapshot,
}

abbrev mail : ServerManifest
mail = record {
  id = "mail";
  command = "mcp-lock-mail";
  args = [];
  env = [];
  tools = ("delete_message", write) ∷ ("search", read) ∷ ("send_message", confirm) ∷ [];
}

abbrev files : ServerManifest
files = record { id = "files"; command = "files"; args = []; env = []; tools = ("list", read) ∷ [] }

abbrev loaded : LoadedManifest
loaded = record { manifest = record { servers = mail ∷ files ∷ [] }; integrity_sha256 = "" }

broker : Unit {0}
unfolding classify_advertised classify resolve_exposure sort is_active for_duration from_manifest
    server update_slot server_mut exposure_snapshot elevation_count
broker = tt

snapshot :
    exposure_snapshot (from_manifest loaded) 0
    ≡ ("files", "list" ∷ []) ∷ ("mail", "search" ∷ []) ∷ []
unfolding broker
snapshot = refl
