-- ===== src/Aggregator/Served.antt =====
-- Which calls return a value without a grant.
use mcp_lock.Prelude.{String, ◌≡◌, sym, ◌∙◌, ◌==◌, eq_string, some, Memᴰ}
use text.Mathlib.TextEquality.{eq_iff}
use mcp_lock.Prelude.Search.{find-eq-some}
use mcp_lock.Prelude.Text.{split_once}
use mcp_lock.Prelude.BTreeMap.{get}
use mcp_lock.Prelude.Results.{ok}
use mcp_lock.Manifest.{read, ServerManifest, LoadedManifest}
use mcp_lock.Policy.Grant.{Timestamp}
use mcp_lock.Broker.{server}
use mcp_lock.Child.{McpChild}
use mcp_lock.Aggregator.Data.{Aggregator, namespace_sep}
use mcp_lock.Aggregator.Calls.{call}
use mcp_lock.Aggregator.Gate.{call-eq-ok_iff}
use mcp_lock.Aggregator.Actions.{Reach}
use mcp_lock.Aggregator.Safety.{ungranted_read_only}

module _ {Value Child Spawner : Type 0} (loaded : LoadedManifest) where
  -- As long as no elevation is granted, a call returns a value only for a tool that the manifest
  -- declares read-only.
  pub ungranted_calls_read_only :
      (ops : McpChild Value Child Spawner) (a : Aggregator Value Child Spawner)
      (external_name : String) (arguments : Value) (now : Timestamp) (v : Value)
      → Reach loaded a
      → (call ops a external_name arguments now).0 ≡ ok v
      → (server_id : String) × (tool : String) × (split_once external_name namespace_sep
          ≡ some (server_id, tool))
        × (entry : ServerManifest) × Memᴰ entry loaded.manifest.servers
        × (entry.id ≡ server_id)
        × (get tool entry.tools ≡ some read)
  unfolding server
  ungranted_calls_read_only ops a external_name arguments now v r h =
      let g = ((call-eq-ok_iff ops a external_name arguments now v).0 h).0 in
      let (at, hit) = find-eq-some (λ s. s.id == g.server_id) a.state.servers g.slot g.found in
      let (entry, declared, same_id, is_read) =
        ungranted_read_only loaded a g.slot now g.tool r at g.open_now in
      (
        g.server_id,
        g.tool,
        g.named,
        entry,
        declared,
        sym same_id ∙ (eq_iff g.slot.id g.server_id).0 hit,
        is_read,
      )
