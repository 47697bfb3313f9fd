-- ===== src/Aggregator/Ids.antt =====
-- Which manifests an aggregator is built from.
use mathlib.Core.List.{append_assoc, append-nil}
use mcp_lock.Prelude.{
  String, ◌≡◌, refl, ap, sym, ◌∙◌, subst, ◌↔◌, inl, inr, false, List, [], ◌∷◌, ◌++◌, arith, All,
  map, Bool-cases,
}
use mcp_lock.Prelude.Text.{contains}
use mcp_lock.Prelude.Results.{Result, ok, err, Result-cases, ◌>>=◌}
use mcp_lock.Manifest.{ServerManifest, LoadedManifest}
use mcp_lock.Broker.{ServerSlot, new_running}
use mcp_lock.Child.{McpChild}
use mcp_lock.Aggregator.Data.{
  AggregatorError, Aggregator, child, invalid_server_id, unknown_server, unknown_tool, not_exposed,
  not_confirmed, namespace_sep, SpawnedServer,
}
use mcp_lock.Aggregator.Build.{
  Built, unbuilt, finish, stopped_slot, add_server, build_servers, build, spawn_and_classify,
}
use mcp_lock.Aggregator.Started.{IsSpawned, spawn_and_classify-IsSpawned}

abbrev pub ids : List ServerSlot → List String
ids = map (λ s. s.id)

abbrev pub server_ids : List ServerManifest → List String
server_ids = map (λ s. s.id)

-- An id that leaves the routing unambiguous.
abbrev pub IsRoutable : ServerManifest → Type 0
IsRoutable s = contains s.id namespace_sep ≡ false

ids-snoc : (ss : List ServerSlot) (s : ServerSlot) → ids (ss ++ s ∷ []) ≡ ids ss ++ s.id ∷ []
ids-snoc [] s = refl
ids-snoc (t ∷ ss) s = ap (λ r. t.id ∷ r) (ids-snoc ss s)

module _ {Value Child Spawner : Type 0} (ops : McpChild Value Child Spawner) where
  add_server-ids :
      (s : ServerManifest) (b c : Built Value Child Spawner)
      (r : Result (SpawnedServer Value Child) AggregatorError × Spawner)
      → add_server ops s b r ≡ ok c
      → ids c.slots ≡ ids b.slots ++ s.id ∷ []
  add_server-ids s b c (ok (child', tools, defs), spawner) eq =
      let slots : c.slots ≡ b.slots ++ new_running s.id tools ∷ [] = ground arith in
      rw slots (ids-snoc b.slots (new_running s.id tools))
  add_server-ids s b c (err (child e), spawner) eq =
      let slots : c.slots ≡ b.slots ++ stopped_slot s [] ∷ [] = ground arith in
      rw slots (ids-snoc b.slots (stopped_slot s []))
  add_server-ids s b c (err (invalid_server_id e), spawner) eq = cc
  add_server-ids s b c (err (unknown_server e), spawner) eq = cc
  add_server-ids s b c (err (unknown_tool e), spawner) eq = cc
  add_server-ids s b c (err (not_exposed e), spawner) eq = cc
  add_server-ids s b c (err (not_confirmed e), spawner) eq = cc

  add_server_succeeds :
      (s : ServerManifest) (b : Built Value Child Spawner)
      (r : Result (SpawnedServer Value Child) AggregatorError × Spawner)
      → IsSpawned ops s r.0
      → (c : Built Value Child Spawner) × (add_server ops s b r ≡ ok c)
  add_server_succeeds s b (ok (c, tools, defs), spawner) q = (_, refl)
  add_server_succeeds s b (err e, spawner) (c, same) =
      subst (λ x. (d : Built Value Child Spawner) × (add_server ops s b (err x, spawner) ≡ ok d))
        (sym same) (_, refl)

  build_servers-eq-ok :
      (b c : Built Value Child Spawner) (servers : List ServerManifest)
      → build_servers ops b servers ≡ ok c
      → (ids c.slots ≡ ids b.slots ++ server_ids servers) × All IsRoutable servers
  unfolding build_servers
  build_servers-eq-ok b c [] eq =
      let e : b ≡ c = ground arith in (rw (← e) (sym (append-nil (ids b.slots))), tt)
  build_servers-eq-ok b c (s ∷ rest) eq = elim (Bool-cases (contains s.id namespace_sep)) [
    | inl bad ↦ absurd (ground arith)
    | inr good ↦
        let (d, added) =
          add_server_succeeds s b (spawn_and_classify ops b.spawner s)
            (spawn_and_classify-IsSpawned ops b.spawner s) in
        let r = build_servers-eq-ok d c rest (ground arith) in
        (
          r.0
              ∙ rw (add_server-ids s b d _ added)
                  (append_assoc (ids b.slots) (s.id ∷ []) (server_ids rest)),
          (good, r.1),
        )
  ]

  build_servers_succeeds :
      (b : Built Value Child Spawner) (servers : List ServerManifest)
      → All IsRoutable servers
      → (c : Built Value Child Spawner) × (build_servers ops b servers ≡ ok c)
  unfolding build_servers
  build_servers_succeeds b [] h = (b, refl)
  build_servers_succeeds b (s ∷ rest) h =
      let (d, added) =
        add_server_succeeds s b (spawn_and_classify ops b.spawner s)
          (spawn_and_classify-IsSpawned ops b.spawner s) in
      let (c, e) = build_servers_succeeds d rest h.1 in (c, rw (h.0, added) e)

  -- An aggregator is built exactly when no server id holds the separator, whatever the children do:
  -- one that cannot be spawned, or does not list its tools, does not keep the others from starting.
  pub build-eq-ok_iff :
      (loaded : LoadedManifest) (spawner : Spawner)
      → ((a : Aggregator Value Child Spawner) × (build ops loaded spawner ≡ ok a))
        ↔ All IsRoutable loaded.manifest.servers
  unfolding build
  build-eq-ok_iff loaded spawner = (
    λ r. elim (Result-cases (build_servers ops (unbuilt ops spawner) loaded.manifest.servers)) [
      | inl (b, built) ↦
          (build_servers-eq-ok (unbuilt ops spawner) b loaded.manifest.servers built).1
      | inr (e, failed) ↦ absurd (ground (arith, r.1))
    ],
    λ h.
        let (b, built) = build_servers_succeeds (unbuilt ops spawner) loaded.manifest.servers h in
        subst
          (λ r.
            (a : Aggregator Value Child Spawner) × ((r >>= λ c. ok (finish ops loaded c)) ≡ ok a))
          (sym built) (_, refl),
  )

  -- The slots of a fresh aggregator are those of the manifest's servers, in the manifest's order.
  pub build-ids :
      (loaded : LoadedManifest) (spawner : Spawner) (a : Aggregator Value Child Spawner)
      → build ops loaded spawner ≡ ok a
      → ids a.state.servers ≡ server_ids loaded.manifest.servers
  unfolding build
  build-ids loaded spawner a eq =
      elim (Result-cases (build_servers ops (unbuilt ops spawner) loaded.manifest.servers)) [
        | inl (b, built) ↦
            let slots : a.state.servers ≡ b.slots = ground arith in
            rw slots (build_servers-eq-ok _ b loaded.manifest.servers built).0
        | inr (e, failed) ↦ absurd (ground arith)
      ]
