-- ===== src/Aggregator/Elevations.antt =====
-- What the operations on a server's life do to elevations.
use mcp_lock.Prelude.{
  String, ◌≡◌, refl, ap, ◌∙◌, inl, inr, Option, none, some, arith, Bool-cases, Option-cases, ◌==◌,
  eq_string, if◌then◌else◌,
}
use text.Mathlib.TextEquality.{eq_iff}
use mcp_lock.Prelude.BTreeMap.{contains_key}
use mcp_lock.Prelude.Results.{Result, ok, err}
use mcp_lock.Manifest.{server as manifest_server}
use mcp_lock.Policy.{ServerState, running, paused, stopped}
use mcp_lock.Policy.Grant.{Elevation}
use mcp_lock.Broker.{
  ServerSlot, BrokerState, set_state as set_slot_state, set_tools, server, server_mut,
}
use mcp_lock.Broker.Frame.{map_slot, server-server_mut}
use mcp_lock.Child.{McpChild}
use mcp_lock.Aggregator.Data.{Aggregator, AggregatorError, SpawnedServer}
use mcp_lock.Aggregator.Build.{spawn_and_classify}
use mcp_lock.Aggregator.Lifecycle.{set_state, drop_child, pause, resume, stop, start, respawned}
use mcp_lock.Aggregator.Faults.{server-if_server_mut}

abbrev elevation_of : Option ServerSlot → Option Elevation
elevation_of none = none
elevation_of (some s) = s.elevation

-- The elevation that the slot of an id holds, active or not.
abbrev pub elevation_at : BrokerState → String → Option Elevation
elevation_at b id = elevation_of (server b id)

elevation_of-map :
    (f : ServerSlot → ServerSlot) (o : Option ServerSlot)
    → ((s : ServerSlot) → (f s).elevation ≡ s.elevation)
    → elevation_of (map_slot f o) ≡ elevation_of o
elevation_of-map f none k = refl
elevation_of-map f (some s) k = k s

pub elevation_at-server_mut :
    (b c : BrokerState) (id j : String) (f : ServerSlot → ServerSlot)
    → ((s : ServerSlot) → (f s).id ≡ s.id)
    → server_mut b id f ≡ some c
    → elevation_at c j
      ≡ (if id == j then elevation_of (map_slot f (server b j)) else elevation_at b j)
elevation_at-server_mut b c id j f k h =
    ground (arith, server-server_mut b c id j f k h, eq_iff id j)

module _ {Value Child Spawner : Type 0} where
  set_state-elevation :
      (a : Aggregator Value Child Spawner) (id j : String) (state : ServerState)
      → elevation_at (set_state a id state).1.state j ≡ elevation_at a.state j
  unfolding set_state
  set_state-elevation a id j state =
      elim (Option-cases (server_mut a.state id (set_slot_state state))) [
        | inl gone ↦ rw (gone, set_state) refl
        | inr (b, done) ↦
            rw (done, set_state)
              (ground (
                arith,
                server-server_mut a.state b id j (set_slot_state state) (λ s. refl) done,
                elevation_of-map (set_slot_state state) (server a.state j) (λ s. refl),
                eq_iff id j,
              ))
      ]

  drop_child-state :
      (id : String) (r : Result (Unit {0}) AggregatorError × Aggregator Value Child Spawner)
      → (drop_child id r).1.state ≡ r.1.state
  drop_child-state id (ok u, a) = refl
  drop_child-state id (err e, a) = refl

  pub pause-elevation :
      (a : Aggregator Value Child Spawner) (id j : String)
      → elevation_at (pause a id).1.state j ≡ elevation_at a.state j
  unfolding pause
  pause-elevation a id j = set_state-elevation a id j paused

  pub resume-elevation :
      (a : Aggregator Value Child Spawner) (id j : String)
      → elevation_at (resume a id).1.state j ≡ elevation_at a.state j
  unfolding resume
  resume-elevation a id j = set_state-elevation a id j running

  pub stop-elevation :
      (a : Aggregator Value Child Spawner) (id j : String)
      → elevation_at (stop a id).1.state j ≡ elevation_at a.state j
  unfolding stop
  stop-elevation a id j =
      ap (λ b. elevation_at b j) (drop_child-state id (set_state a id stopped))
      ∙ set_state-elevation a id j stopped

  respawned-elevation :
      (a : Aggregator Value Child Spawner) (id j : String)
      (r : Result (SpawnedServer Value Child) AggregatorError × Spawner)
      → elevation_at (respawned a id r).1.state j ≡ elevation_at a.state j
  respawned-elevation a id j (err e, spawner) = refl
  respawned-elevation a id j (ok (c, tools, defs), spawner) =
      set_state-elevation _ id j running
      ∙ ground (
        arith,
        server-if_server_mut a.state id j (set_tools tools) (λ s. refl),
        elevation_of-map (set_tools tools) (server a.state j) (λ s. refl),
        eq_iff id j,
      )

  pub start-elevation :
      (ops : McpChild Value Child Spawner) (a : Aggregator Value Child Spawner) (id j : String)
      → elevation_at (start ops a id).1.state j ≡ elevation_at a.state j
  unfolding start
  start-elevation ops a id j = elim (Option-cases (manifest_server a.manifest.manifest id)) [
    | inl gone ↦ rw (gone, start) refl
    | inr (s, found) ↦ elim (Bool-cases (contains_key id a.children)) [
      | inl there ↦ rw (found, there, start) (set_state-elevation a id j running)
      | inr gone ↦
          rw (found, gone, start) (respawned-elevation a id j (spawn_and_classify ops a.spawner s))
    ]
  ]
