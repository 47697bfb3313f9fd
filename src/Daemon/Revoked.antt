-- ===== src/Daemon/Revoked.antt =====
-- What the MCP client gets from a server whose elevation the control channel has revoked.
use mcp_lock.Prelude.{String, ◌≡◌, refl, inl, inr, none, some, Memᴰ, arith, Option-cases}
use text.Mathlib.TextEquality.{eq_iff}
use mcp_lock.Prelude.Sync.{lock}
use mcp_lock.Manifest.{read}
use mcp_lock.Policy.{ClassifiedTool}
use mcp_lock.Policy.Grant.{Timestamp}
use mcp_lock.Policy.Exposure.{mem-resolve_exposure}
use mcp_lock.Broker.{ServerSlot, BrokerState, server, exposed, revoke_elevation, server_mut}
use mcp_lock.Broker.Frame.{server_mut-eq-none_iff}
use mcp_lock.Aggregator.Elevations.{elevation_at, elevation_at-server_mut}
use mcp_lock.Aggregator.Faults.{KeepsOrCloses}
use mcp_lock.Mcp.Outcomes.{handle-IsWithin}
use mcp_lock.Control.Data.{
  ControlRequest, ControlResponse, Externals, Inputs, Handler, record_line, set_aggregator,
}
use mcp_lock.Control.Commands.{is_changed}
use mcp_lock.Control.Grants.{revoke}
use mcp_lock.Control.Handle.{handle}
use mcp_lock.Control.Authority.{held, held-notify}
use mcp_lock.Daemon.{Served}
use mcp_lock.Daemon.Requests.{control_handler, control_request}
use mcp_lock.Daemon.Asked.{Asked, Asked_lem}

ungranted :
    (b c : BrokerState) (id : String)
    → server_mut b id revoke_elevation ≡ some c
    → elevation_at c id ≡ none
ungranted b c id done = elim (Option-cases (server b id)) [
  | inl gone ↦
      ground (arith, elevation_at-server_mut b c id id revoke_elevation (λ s. refl) done, gone)
  | inr (s, found) ↦ ground (
    arith,
    elevation_at-server_mut b c id id revoke_elevation (λ s. refl) done,
    found,
    eq_iff id id,
  )
]

module _ {Value Child Spawner Key File : Type 0}
    (ext : Externals Value Child Spawner Key File) where
  held-revoke :
      (h : Handler Value Child Spawner Key File) (inputs : Inputs) (id : String)
      → lock h.aggregator ≡ some h.aggregator.value
      → held (revoke ext h inputs id).1 id ≡ none
  unfolding revoke record_line
  held-revoke h inputs id fine =
      let a = h.aggregator.value in
      elim (Option-cases (server_mut a.state id revoke_elevation)) [
        | inl unknown ↦
            let gone = (server_mut-eq-none_iff a.state id revoke_elevation).0 unknown in
            rw (fine, unknown, gone) refl
        | inr (b, done) ↦
            rw
              (
                fine,
                done,
                held-notify (is_changed a (record a { state = b }) inputs.now)
                    (set_aggregator h (record a { state = b })) id,
              )
              (ungranted a.state b id done)
      ]

  -- A server without an elevation has none after a request of the MCP client.
  stays_ungranted :
      (before after : BrokerState) (id : String)
      → KeepsOrCloses before after
      → elevation_at before id ≡ none
      → elevation_at after id ≡ none
  stays_ungranted before after id moved idle = elim (moved id) [
    | inl same ↦ ground (arith, same, idle)
    | inr shut ↦ ground (arith, shut, idle)
  ]

  -- Once the control channel has revoked the elevation of a server, where the lock on the aggregator
  -- is not poisoned: whatever the MCP client requests then, and whatever the children answer, each
  -- name that the server exposes at any time is that of a tool of the server that is read-only.
  pub revoked_read_only :
      (s after t : Served Value Child Spawner Key File) (inputs : Inputs) (id : String)
      (response : ControlResponse) (slot : ServerSlot) (at : Timestamp) (name : String)
      → lock s.aggregator ≡ some s.aggregator.value
      → control_request ext s inputs (ControlRequest.revoke id) ≡ some (response, after)
      → Asked after t
      → server t.aggregator.value.state id ≡ some slot
      → Memᴰ name (exposed slot at)
      → (tool : ClassifiedTool) × Memᴰ tool slot.tools × (tool.name ≡ name) × (tool.class ≡ read)
  unfolding control_request handle
  revoked_read_only s after t inputs id response slot at name fine asked_for asked here shown =
      let idle : elevation_at after.aggregator.value.state id ≡ none =
        elim (Option-cases s.control) [
          | inl closed ↦ absurd (ground arith)
          | inr (own, there) ↦
              let left : (handle ext (control_handler s own) inputs
                    (ControlRequest.revoke id)).1.aggregator
                  ≡ after.aggregator =
                ground arith in
              rw (← left) (held-revoke (control_handler s own) inputs id fine)
        ] in
      let still : elevation_at t.aggregator.value.state id ≡ none =
        Asked_lem (λ a. elevation_at a.state id ≡ none) after t
          (λ mcp h request now wall e.
            stays_ungranted h.aggregator.value.state _ id (handle-IsWithin mcp h request now wall).1
              e)
          idle asked in
      let x = (mem-resolve_exposure slot.tools slot.elevation at name slot.state).0 shown in
      let none_held : slot.elevation ≡ none = ground (arith, still, here) in
      elim x.open_for [
        | inl reads ↦ (x.tool, x.listed, x.named, reads)
        | inr active ↦ absurd (ground (arith, none_held, active))
      ]
