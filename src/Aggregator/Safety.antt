-- ===== src/Aggregator/Safety.antt =====
-- Without a grant, only what the manifest declares read-only is ever exposed.
use mcp_lock.Prelude.{
  String, ◌≡◌, refl, sym, ◌∙◌, inl, inr, none, some, [], ◌∷◌, Memᴰ, Bool-cases, Option-cases, ◌==◌,
  eq_string,
}
use text.Mathlib.TextEquality.{eq_iff}
use mcp_lock.Prelude.Search.{find-eq-some, All_at}
use mcp_lock.Prelude.Text.{split_once}
use mcp_lock.Prelude.BTreeMap.{BTreeMap, get, contains_key}
use mcp_lock.Prelude.Results.{Result, ok, err}
use mcp_lock.Manifest.{read, ServerManifest, LoadedManifest, server as manifest_server}
use mcp_lock.Policy.{ServerState, running, paused, stopped}
use mcp_lock.Policy.Exposure.{default_deny}
use mcp_lock.Policy.Grant.{Timestamp}
use mcp_lock.Broker.{
  ServerSlot, BrokerState, exposed, set_state as set_slot_state, set_tools, server_mut,
}
use mcp_lock.Child.{McpChild}
use mcp_lock.Aggregator.Data.{AggregatorError, Aggregator, namespace_sep, SpawnedServer}
use mcp_lock.Aggregator.Lifecycle.{
  if_server_mut, fault, approve_action, set_state, drop_child, pause, resume, stop, start,
  respawned, reap, reap_exited_children,
}
use mcp_lock.Aggregator.Calls.{call}
use mcp_lock.Aggregator.Guarded.{
  IsGuarded, Guarded, Guarded-server_mut, Guarded-if_server_mut, IsGuarded-set_state,
  IsGuarded-fault,
}
use mcp_lock.Aggregator.Started.{IsSpawned, spawn_and_classify-IsSpawned, build-Guarded}
use mcp_lock.Aggregator.Faults.{is_faulted, call-IsSettled, call_unsplit}
use mcp_lock.Aggregator.Actions.{
  Step, approves, pauses, resumes, stops, starts, calls, reaps, Reach, built, next,
}

-- What a guarded slot exposes is declared read-only.
pub Guarded-exposed :
    (loaded : LoadedManifest) (b : BrokerState) (slot : ServerSlot) (now : Timestamp)
    (name : String)
    → Guarded loaded b
    → Memᴰ slot b.servers
    → Memᴰ name (exposed slot now)
    → (entry : ServerManifest) × Memᴰ entry loaded.manifest.servers
      × (slot.id ≡ entry.id)
      × (get name entry.tools ≡ some read)
Guarded-exposed loaded b slot now name guarded at m =
    let g = All_at (IsGuarded loaded) b.servers slot guarded at in
    (
      g.entry,
      g.declared,
      g.same_id,
      (default_deny g.entry.tools g.advertised slot.state none now name refl
          (rw (g.unelevated, g.classified) at m)).0,
    )

module _ {Value Child Spawner : Type 0} (loaded : LoadedManifest) where
  pub record IsSafe (a : Aggregator Value Child Spawner) : Type 0 where
    pub manifest : a.manifest ≡ loaded
    pub slots : Guarded loaded a.state

  set_state-IsSafe :
      (a : Aggregator Value Child Spawner) (id : String) (state : ServerState)
      → IsSafe a
      → IsSafe (set_state a id state).1
  unfolding set_state
  set_state-IsSafe a id state v =
      elim (Option-cases (server_mut a.state id (set_slot_state state))) [
        | inl gone ↦ rw (gone, set_state) v
        | inr (b, done) ↦
            rw (done, set_state)
              (record {
                manifest = v.manifest;
                slots =
                    Guarded-server_mut loaded a.state b id (set_slot_state state)
                      (λ s e g. IsGuarded-set_state loaded state s g) v.slots done;
              })
      ]

  drop_child-IsSafe :
      (id : String) (r : Result (Unit {0}) AggregatorError × Aggregator Value Child Spawner)
      → IsSafe r.1
      → IsSafe (drop_child id r).1
  drop_child-IsSafe id (ok u, a) v = record { manifest = v.manifest; slots = v.slots }
  drop_child-IsSafe id (err e, a) v = v

  stop-IsSafe : (a : Aggregator Value Child Spawner) (id : String) → IsSafe a → IsSafe (stop a id).1
  unfolding stop
  stop-IsSafe a id v = drop_child-IsSafe id _ (set_state-IsSafe a id stopped v)

  module _ (ops : McpChild Value Child Spawner) where
    respawned-IsSafe :
        (a : Aggregator Value Child Spawner) (id : String) (s : ServerManifest)
        (r : Result (SpawnedServer Value Child) AggregatorError × Spawner)
        → manifest_server loaded.manifest id ≡ some s
        → IsSpawned ops s r.0
        → IsSafe a
        → IsSafe (respawned a id r).1
    unfolding manifest_server
    respawned-IsSafe a id s (err e, spawner) found q v = record {
      manifest = v.manifest;
      slots = v.slots;
    }
    respawned-IsSafe a id s (ok (c, tools, defs), spawner) found (advertised, e) v =
        let (listed, hit) =
          find-eq-some (λ m. m.id == id) loaded.manifest.servers s (rw found refl) in
        set_state-IsSafe _ id running (record {
          manifest = v.manifest;
          slots =
              Guarded-if_server_mut loaded a.state id (set_tools tools)
                (λ t at g. record {
                  unelevated = g.unelevated;
                  entry = s;
                  declared = listed;
                  same_id = at ∙ sym ((eq_iff s.id id).0 hit);
                  advertised = advertised;
                  classified = e;
                })
                v.slots;
        })

    start-IsSafe :
        (a : Aggregator Value Child Spawner) (id : String) → IsSafe a → IsSafe (start ops a id).1
    unfolding start
    start-IsSafe a id v = elim (Option-cases (manifest_server a.manifest.manifest id)) [
      | inl gone ↦ rw (gone, start) v
      | inr (s, found) ↦ elim (Bool-cases (contains_key id a.children)) [
        | inl there ↦ rw (found, there, start) (set_state-IsSafe a id running v)
        | inr gone ↦
            rw (found, gone, start)
              (respawned-IsSafe a id s _ (rw v.manifest at found)
                (spawn_and_classify-IsSpawned ops a.spawner s) v)
      ]
    ]

    reap-Guarded :
        (children : BTreeMap Child) (b : BrokerState)
        → Guarded loaded b
        → Guarded loaded (reap ops children b).1
    reap-Guarded [] b g = g
    reap-Guarded ((id, c) ∷ rest) b g = elim (Bool-cases (ops.is_alive c).0) [
      | inl alive ↦ rw alive (reap-Guarded rest b g)
      | inr dead ↦ rw dead (
          reap-Guarded rest _
            (Guarded-if_server_mut loaded b id fault (λ s e h. IsGuarded-fault loaded s h) g))
    ]

    call-IsSafe :
        (a : Aggregator Value Child Spawner) (external_name : String) (arguments : Value)
        (now : Timestamp)
        → IsSafe a
        → IsSafe (call ops a external_name arguments now).1
    call-IsSafe a external_name arguments now v =
        elim (Option-cases (split_once external_name namespace_sep)) [
          | inl whole ↦ rw (call_unsplit ops a external_name arguments now whole) v
          | inr ((server_id, tool), split) ↦
              let c = call-IsSettled ops a external_name arguments now server_id tool split in
              record {
                manifest = c.within.manifest ∙ v.manifest;
                slots = elim (Bool-cases (is_faulted (call ops a external_name arguments now).0)) [
                  | inl bad ↦
                      let e : (call ops a external_name arguments now).1.state
                          ≡ if_server_mut a.state server_id fault =
                        rw bad at c.state in
                      rw e (
                        Guarded-if_server_mut loaded a.state server_id fault
                          (λ s e h. IsGuarded-fault loaded s h) v.slots)
                  | inr calm ↦
                      let e : (call ops a external_name arguments now).1.state ≡ a.state =
                        rw calm at c.state in
                      rw e v.slots
                ];
              }
        ]

    Step-IsSafe : {a b : Aggregator Value Child Spawner} → Step ops a b → IsSafe a → IsSafe b
    unfolding approve_action pause resume reap_exited_children
    Step-IsSafe (approves a server_id tool now) v = record {
      manifest = v.manifest;
      slots = v.slots;
    }
    Step-IsSafe (pauses a id) v = set_state-IsSafe a id paused v
    Step-IsSafe (resumes a id) v = set_state-IsSafe a id running v
    Step-IsSafe (stops a id) v = stop-IsSafe a id v
    Step-IsSafe (starts a id) v = start-IsSafe a id v
    Step-IsSafe (calls a external_name arguments now) v =
        call-IsSafe a external_name arguments now v
    Step-IsSafe (reaps a) v = record {
      manifest = v.manifest;
      slots = reap-Guarded a.children a.state v.slots;
    }

  pub Reach-IsSafe : {a : Aggregator Value Child Spawner} → Reach loaded a → IsSafe a
  Reach-IsSafe (built ops spawner a e) =
      let b = build-Guarded ops loaded spawner a e in record { manifest = b.0; slots = b.1 }
  Reach-IsSafe (next ops r st) = Step-IsSafe ops st (Reach-IsSafe r)

  -- Whatever operations follow the start of an aggregator, and whatever its children answer: as long
  -- as no elevation is granted, each name that a slot exposes at any time is one that an entry of
  -- the manifest with the slot's id declares read-only.
  pub ungranted_read_only :
      (a : Aggregator Value Child Spawner) (slot : ServerSlot) (now : Timestamp) (name : String)
      → Reach loaded a
      → Memᴰ slot a.state.servers
      → Memᴰ name (exposed slot now)
      → (entry : ServerManifest) × Memᴰ entry loaded.manifest.servers
        × (slot.id ≡ entry.id)
        × (get name entry.tools ≡ some read)
  ungranted_read_only a slot now name r at m =
      Guarded-exposed loaded a.state slot now name (Reach-IsSafe r).slots at m
