-- ===== src/Control/Authority.antt =====
-- Who can elevate.
use mcp_lock.Prelude.{
  String, ◌≡◌, refl, ◌∙◌, inl, inr, Bool, true, false, Option, some, Bool-cases, Option-cases, ◌==◌,
  eq_string,
}
use text.Mathlib.TextEquality.{eq_iff}
use mcp_lock.Prelude.Results.{Result, ok, err}
use mcp_lock.Prelude.Sync.{lock, lock-cases}
use mcp_lock.Policy.Grant.{Elevation}
use mcp_lock.Broker.{ServerSlot, BrokerState, server, server_mut}
use mcp_lock.Audit.{AuditEvent}
use mcp_lock.Aggregator.Data.{Aggregator, AggregatorError}
use mcp_lock.Aggregator.Elevations.{
  elevation_at, elevation_at-server_mut, pause-elevation, resume-elevation, stop-elevation,
  start-elevation,
}
use mcp_lock.Control.Data.{
  Externals, Inputs, Handler, record_line, notify_tools_list_changed, set_aggregator,
}
use mcp_lock.Control.Commands.{is_changed, LifecycleOp, run_op, answered, lifecycle}
use mcp_lock.Control.Grants.{regrant_in, regrant}

module _ {Value Child Spawner Key File : Type 0} where
  -- The elevation that the slot of an id holds.
  abbrev pub held : Handler Value Child Spawner Key File → String → Option Elevation
  held h id = elevation_at h.aggregator.value.state id

  pub held-notify :
      (c : Bool) (h : Handler Value Child Spawner Key File) (id : String)
      → held (notify_tools_list_changed c h) id ≡ held h id
  held-notify true h id = refl
  held-notify false h id = refl

module _ {Value Child Spawner Key File : Type 0}
    (ext : Externals Value Child Spawner Key File) where
  run_op-elevation :
      (op : LifecycleOp) (a : Aggregator Value Child Spawner) (id j : String)
      → elevation_at (run_op ext.children op a id).1.state j ≡ elevation_at a.state j
  run_op-elevation LifecycleOp.start a id j = start-elevation ext.children a id j
  run_op-elevation LifecycleOp.stop a id j = stop-elevation a id j
  run_op-elevation LifecycleOp.pause a id j = pause-elevation a id j
  run_op-elevation LifecycleOp.resume a id j = resume-elevation a id j

  answered-held :
      (h : Handler Value Child Spawner Key File) (inputs : Inputs) (op : LifecycleOp)
      (id j : String) (a : Aggregator Value Child Spawner)
      (r : Result (Unit {0}) AggregatorError × Aggregator Value Child Spawner)
      → held (answered ext h inputs op id a r).1 j ≡ elevation_at r.1.state j
  unfolding record_line
  answered-held h inputs op id j a (ok u, after) = held-notify _ (set_aggregator h after) j
  answered-held h inputs op id j a (err e, after) = refl

  -- A lifecycle command, a start included, leaves the elevation of every slot as it was.
  pub lifecycle-held :
      (h : Handler Value Child Spawner Key File) (inputs : Inputs) (op : LifecycleOp)
      (id j : String)
      → held (lifecycle ext h inputs op id).1 j ≡ held h j
  unfolding lifecycle
  lifecycle-held h inputs op id j = elim (lock-cases h.aggregator) [
    | inl bad ↦ rw (bad, lifecycle) refl
    | inr fine ↦
        rw (fine, lifecycle)
          (answered-held h inputs op id j h.aggregator.value
              (run_op ext.children op h.aggregator.value id)
            ∙ run_op-elevation op h.aggregator.value id j)
  ]

  -- What an access to one slot that `f` makes does to the elevations.
  pub data Regrants (f : ServerSlot → ServerSlot) (server_id j : String)
      (before after : Option Elevation) : Type 0 where
    keeps : after ≡ before → Regrants f server_id j before after
    takes :
        (s : ServerSlot)
        → server_id ≡ j
        → after ≡ (f s).elevation
        → Regrants f server_id j before after

  regranted :
      (b c : BrokerState) (server_id j : String) (f : ServerSlot → ServerSlot)
      → ((s : ServerSlot) → (f s).id ≡ s.id)
      → server_mut b server_id f ≡ some c
      → Regrants f server_id j (elevation_at b j) (elevation_at c j)
  regranted b c server_id j f keep done =
      let e = elevation_at-server_mut b c server_id j f keep done in
      elim (Bool-cases (server_id == j)) [
        | inr other ↦ keeps (e ∙ rw other refl)
        | inl same ↦ elim (Option-cases (server b j)) [
          | inl gone ↦ keeps (e ∙ rw (same, gone) refl)
          | inr (s, found) ↦ takes s ((eq_iff server_id j).0 same) (e ∙ rw (same, found) refl)
        ]
      ]

  regrant_in-held :
      (h : Handler Value Child Spawner Key File) (inputs : Inputs) (server_id j : String)
      (event : AuditEvent) (line message : String) (a : Aggregator Value Child Spawner)
      (f : ServerSlot → ServerSlot)
      → ((s : ServerSlot) → (f s).id ≡ s.id)
      → held h j ≡ elevation_at a.state j
      → Regrants f server_id j (held h j) (
          held
            (regrant_in ext h inputs server_id event line message a
              (server_mut a.state server_id f)).1
            j)
  unfolding record_line
  regrant_in-held h inputs server_id j event line message a f keep start =
      elim (Option-cases (server_mut a.state server_id f)) [
        | inl gone ↦ rw gone (keeps refl)
        | inr (c, done) ↦
            rw
              (
                done,
                held-notify (is_changed a (record a { state = c }) inputs.now)
                    (set_aggregator h (record a { state = c })) j,
                start,
              )
              (regranted a.state c server_id j f keep done)
      ]

  pub regrant-held :
      (h : Handler Value Child Spawner Key File) (inputs : Inputs) (server_id j : String)
      (event : AuditEvent) (line message : String) (f : ServerSlot → ServerSlot)
      → ((s : ServerSlot) → (f s).id ≡ s.id)
      → Regrants f server_id j
          (held h j)
          (held (regrant ext h inputs server_id f event line message (lock h.aggregator)).1 j)
  regrant-held h inputs server_id j event line message f keep = elim (lock-cases h.aggregator) [
    | inl bad ↦ rw bad (keeps refl)
    | inr fine ↦
        rw fine
          (regrant_in-held h inputs server_id j event line message h.aggregator.value f keep refl)
  ]
