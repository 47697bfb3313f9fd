-- ===== src/Aggregator/Started.antt =====
-- What `build` starts with.
use mcp_lock.Prelude.{String, ◌≡◌, refl, inl, inr, List, [], ◌∷◌, ◌++◌, Memᴰ, arith, All, map}
use mcp_lock.Prelude.Results.{Result, ok, err, Result-cases}
use mcp_lock.Manifest.{ServerManifest, LoadedManifest}
use mcp_lock.Policy.{classify_advertised}
use mcp_lock.Broker.{new_running}
use mcp_lock.Child.{ChildError, ToolDef, McpChild}
use mcp_lock.Aggregator.Data.{
  AggregatorError, Aggregator, child, invalid_server_id, unknown_server, unknown_tool, not_exposed,
  not_confirmed, SpawnedServer,
}
use mcp_lock.Aggregator.Build.{
  Built, unbuilt, stopped_slot, add_server, build_servers, build, spawn_and_classify, classified,
  listed,
}
use mcp_lock.Aggregator.Guarded.{IsGuarded, Guarded, All-snoc}

module _ {Value Child Spawner : Type 0} (ops : McpChild Value Child Spawner) where
  -- The tools that a spawn gives are what the child advertised, classified by the manifest, and it
  -- fails with an error of the child only.
  abbrev pub IsSpawned :
      ServerManifest → Result (SpawnedServer Value Child) AggregatorError → Type 0
  IsSpawned s (ok (c, tools, defs)) =
      (advertised : List String) × (tools ≡ classify_advertised s.tools advertised)
  IsSpawned s (err e) = (c : ChildError) × (e ≡ child c)

  classified-IsSpawned :
      (s : ServerManifest) (r : Result (List (ToolDef Value)) ChildError × Child)
      → IsSpawned s (classified ops s r)
  classified-IsSpawned s (ok defs, c) = (map (λ t. t.name) defs, refl)
  classified-IsSpawned s (err e, c) = (e, refl)

  listed-IsSpawned :
      (s : ServerManifest) (r : Result Child ChildError × Spawner) → IsSpawned s (listed ops s r).0
  listed-IsSpawned s (ok c, spawner) = classified-IsSpawned s (ops.list_tools c)
  listed-IsSpawned s (err e, spawner) = (e, refl)

  pub spawn_and_classify-IsSpawned :
      (spawner : Spawner) (s : ServerManifest) → IsSpawned s (spawn_and_classify ops spawner s).0
  unfolding spawn_and_classify
  spawn_and_classify-IsSpawned spawner s = listed-IsSpawned s (ops.spawn spawner s)

  module _ (loaded : LoadedManifest) where
    add_server-Guarded :
        (s : ServerManifest) (b c : Built Value Child Spawner)
        (r : Result (SpawnedServer Value Child) AggregatorError × Spawner)
        → Memᴰ s loaded.manifest.servers
        → IsSpawned s r.0
        → All (IsGuarded loaded) b.slots
        → add_server ops s b r ≡ ok c
        → All (IsGuarded loaded) c.slots
    add_server-Guarded s b c (ok (child', tools, defs), spawner) at (advertised, e) h eq =
        let slots : c.slots ≡ b.slots ++ new_running s.id tools ∷ [] = ground arith in
        rw slots (
          All-snoc loaded b.slots _ h (record {
            unelevated = refl;
            entry = s;
            declared = at;
            same_id = refl;
            advertised = advertised;
            classified = e;
          }))
    add_server-Guarded s b c (err (child e), spawner) at q h eq =
        let slots : c.slots ≡ b.slots ++ stopped_slot s [] ∷ [] = ground arith in
        rw slots (
          All-snoc loaded b.slots _ h (record {
            unelevated = refl;
            entry = s;
            declared = at;
            same_id = refl;
            advertised = [];
            classified = refl;
          }))
    add_server-Guarded s b c (err (invalid_server_id e), spawner) at q h eq = cc
    add_server-Guarded s b c (err (unknown_server e), spawner) at q h eq = cc
    add_server-Guarded s b c (err (unknown_tool e), spawner) at q h eq = cc
    add_server-Guarded s b c (err (not_exposed e), spawner) at q h eq = cc
    add_server-Guarded s b c (err (not_confirmed e), spawner) at q h eq = cc

    build_servers-Guarded :
        (b c : Built Value Child Spawner) (servers : List ServerManifest)
        → ((s : ServerManifest) → Memᴰ s servers → Memᴰ s loaded.manifest.servers)
        → All (IsGuarded loaded) b.slots
        → build_servers ops b servers ≡ ok c
        → All (IsGuarded loaded) c.slots
    unfolding build_servers
    build_servers-Guarded b c [] among h eq = let e : b ≡ c = ground arith in rw (← e) h
    build_servers-Guarded b c (s ∷ rest) among h eq =
        elim (Result-cases (add_server ops s b (spawn_and_classify ops b.spawner s))) [
          | inl (d, added) ↦
              build_servers-Guarded d c rest (λ t m. among t (Memᴰ.tail m))
                (add_server-Guarded s b d _ (among s (Memᴰ.head refl))
                  (spawn_and_classify-IsSpawned b.spawner s) h added)
                (ground arith)
          | inr (e, failed) ↦ absurd (ground arith)
        ]

  pub build-Guarded :
      (loaded : LoadedManifest) (spawner : Spawner) (a : Aggregator Value Child Spawner)
      → build ops loaded spawner ≡ ok a
      → (a.manifest ≡ loaded) × Guarded loaded a.state × (a.confirmations ≡ [])
  unfolding build
  build-Guarded loaded spawner a eq =
      elim (Result-cases (build_servers ops (unbuilt ops spawner) loaded.manifest.servers)) [
        | inl (b, built) ↦
            let slots : a.state.servers ≡ b.slots = ground arith in
            (
              ground arith,
              rw slots
                  (build_servers-Guarded loaded _ b loaded.manifest.servers (λ s m. m) tt built),
              ground arith,
            )
        | inr (e, failed) ↦ absurd (ground arith)
      ]
