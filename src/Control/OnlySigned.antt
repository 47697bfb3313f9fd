-- ===== src/Control/OnlySigned.antt =====
-- An elevation needs a signed assertion.
use mcp_lock.Prelude.{String, ◌≡◌, refl, ap, ◌∙◌, inl, inr, Option, none, some, Option-cases}
use mcp_lock.Prelude.Bytes.{Bytes}
use mcp_lock.Prelude.Results.{Result, ok, err}
use mcp_lock.Prelude.Sync.{lock-cases}
use mcp_lock.Policy.Grant.{Elevation}
use mcp_lock.Broker.{grant_elevation, revoke_elevation}
use mcp_lock.Elevation.Challenge.{
  Nonce, Verified, ElevationError, Purpose, nonce_from_hex, RequestedMode,
}
use mcp_lock.Elevation.Store.{NonceStore, verify_and_consume, issue as issue_nonce}
use mcp_lock.Elevation.Verdict.{IsAuthorised, verify-eq-ok_iff}
use mcp_lock.Control.Data.{ControlRequest, Externals, Inputs, Handler, record_line}
use mcp_lock.Control.Commands.{LifecycleOp}
use mcp_lock.Control.Grants.{apply_elevation, apply_confirm, apply_verdict, revoke}
use mcp_lock.Control.Presence.{issued, issue, issue_mode, submit, decode_hex, requested_mode}
use mcp_lock.Control.Handle.{handle}
use mcp_lock.Control.Authority.{held, keeps, takes, regrant-held, lifecycle-held}

-- What became of the elevation of a server: kept, gone, or a new one that meets P.
pub data Outcome (P : Elevation → Type 0) (before after : Option Elevation) : Type 0 where
  kept : after ≡ before → Outcome P before after
  gone : after ≡ none → Outcome P before after
  granted : (e : Elevation) → after ≡ some e → P e → Outcome P before after

module _ {Value Child Spawner Key File : Type 0}
    (ext : Externals Value Child Spawner Key File) where
  -- The texts of a submission decode to an assertion that the store and the registry authorise, for
  -- this elevation of this server.
  pub record IsSigned (h : Handler Value Child Spawner Key File) (inputs : Inputs)
      (client_id nonce_hex signature_hex server_id : String) (e : Elevation) : Type 0 where
    pub nonce : Nonce
    pub signature : Bytes
    pub reads_nonce : nonce_from_hex nonce_hex ≡ some nonce
    pub reads_signature : decode_hex signature_hex ≡ some signature
    pub authorised :
        IsAuthorised ext.verify_strict ext.to_vec h.nonces.value client_id nonce signature
          h.registry inputs.now
          (Verified.elevation server_id e)

  -- The request is such a submission.
  pub data IsGrant (h : Handler Value Child Spawner Key File) (inputs : Inputs) (server_id : String)
      (e : Elevation) : ControlRequest → Type 0 where
    by_elevation :
        (client_id nonce_hex signature_hex : String)
        → IsSigned h inputs client_id nonce_hex signature_hex server_id e
        → IsGrant h inputs server_id e
            (ControlRequest.submit_elevation client_id nonce_hex signature_hex)
    by_confirm :
        (client_id nonce_hex signature_hex : String)
        → IsSigned h inputs client_id nonce_hex signature_hex server_id e
        → IsGrant h inputs server_id e
            (ControlRequest.submit_confirm client_id nonce_hex signature_hex)

  apply_confirm-held :
      (h : Handler Value Child Spawner Key File) (inputs : Inputs) (server_id tool j : String)
      → held (apply_confirm ext h inputs server_id tool).1 j ≡ held h j
  unfolding apply_confirm record_line mcp_lock.Aggregator.Lifecycle.approve_action
  apply_confirm-held h inputs server_id tool j = elim (lock-cases h.aggregator) [
    | inl bad ↦ rw (bad, apply_confirm) refl
    | inr fine ↦ rw (fine, apply_confirm) refl
  ]

  issue-held :
      (h : Handler Value Child Spawner Key File) (inputs : Inputs) (client_id : String)
      (purpose : Purpose) (j : String)
      → held (issue ext h inputs client_id purpose).1 j ≡ held h j
  unfolding issue
  issue-held h inputs client_id purpose j = elim (lock-cases h.nonces) [
    | inl bad ↦ rw (bad, issue) refl
    | inr fine ↦
        rw (fine, issue)
          (issued_lem (issue_nonce h.nonces.value client_id purpose inputs.now inputs.drawn))
  ]
    where
      issued_lem :
          (r : Result Nonce ElevationError × NonceStore) → held (issued ext h r).1 j ≡ held h j
      issued_lem (ok n, nonces) = refl
      issued_lem (err e, nonces) = refl

  module _ (h : Handler Value Child Spawner Key File) (inputs : Inputs) (j : String) where
    verdict-Outcome :
        (g : Handler Value Child Spawner Key File) (client_id : String)
        (r : Result Verified ElevationError)
        → held g j ≡ held h j
        → Outcome
            (λ e. r ≡ ok (Verified.elevation j e))
            (held h j)
            (held (apply_verdict ext g inputs client_id r).1 j)
    unfolding apply_elevation record_line
    verdict-Outcome g client_id (ok (Verified.elevation server_id e)) same =
        elim (regrant-held ext g inputs server_id j _ _ _ (grant_elevation e) (λ s. refl)) [
          | keeps k ↦ kept (k ∙ same)
          | takes s here new ↦ granted e new (ap (λ i. ok (Verified.elevation i e)) here)
        ]
    verdict-Outcome g client_id (ok (Verified.confirm server_id tool)) same =
        kept (apply_confirm-held g inputs server_id tool j ∙ same)
    verdict-Outcome g client_id (err e) same = kept same

    submit-Outcome :
        (client_id nonce_hex signature_hex : String)
        → Outcome
            (IsSigned h inputs client_id nonce_hex signature_hex j)
            (held h j)
            (held (submit ext h inputs client_id nonce_hex signature_hex).1 j)
    unfolding submit
    submit-Outcome client_id nonce_hex signature_hex =
        elim (Option-cases (nonce_from_hex nonce_hex)) [
          | inl bad ↦ rw (bad, submit) (kept refl)
          | inr (nonce, reads_nonce) ↦ elim (Option-cases (decode_hex signature_hex)) [
            | inl bad ↦ rw (reads_nonce, bad, submit) (kept refl)
            | inr (signature, reads_signature) ↦ elim (lock-cases h.nonces) [
              | inl bad ↦ rw (reads_nonce, reads_signature, bad, submit) (kept refl)
              | inr fine ↦
                  rw (reads_nonce, reads_signature, fine, submit)
                    (elim (verdict-Outcome _ client_id
                      (verify_and_consume ext.verify_strict ext.to_vec h.nonces.value client_id
                        nonce signature h.registry inputs.now).0
                      refl) [
                        | kept k ↦ kept k
                        | gone k ↦ gone k
                        | granted e new accepted ↦ granted e new (record {
                          nonce = nonce;
                          signature = signature;
                          reads_nonce = reads_nonce;
                          reads_signature = reads_signature;
                          authorised =
                              (verify-eq-ok_iff ext.verify_strict ext.to_vec h.nonces.value
                                  client_id nonce signature h.registry inputs.now _).0
                                accepted;
                        })
                      ])
            ]
          ]
        ]

    revoke-Outcome :
        {P : Elevation → Type 0} (id : String)
        → Outcome P (held h j) (held (revoke ext h inputs id).1 j)
    unfolding revoke
    revoke-Outcome id = elim (regrant-held ext h inputs id j _ _ _ revoke_elevation (λ s. refl)) [
      | keeps k ↦ kept k
      | takes s here new ↦ gone new
    ]

    issue_mode-held :
        (client_id server_id : String) (r : Result RequestedMode String)
        → held (issue_mode ext h inputs client_id server_id r).1 j ≡ held h j
    issue_mode-held client_id server_id (ok m) = issue-held h inputs client_id _ j
    issue_mode-held client_id server_id (err e) = refl

    -- Whatever the request, the elevation of a server is after it what it was, or gone, or new; and
    -- it is new only where the request submits an assertion that the store of nonces and the registry
    -- authorise for just this server and this elevation.
    pub handle-Outcome :
        (request : ControlRequest)
        → Outcome
            (λ e. IsGrant h inputs j e request)
            (held h j)
            (held (handle ext h inputs request).1 j)
    unfolding handle
    handle-Outcome ControlRequest.status = kept refl
    handle-Outcome ControlRequest.list = kept refl
    handle-Outcome (ControlRequest.logs limit) = kept refl
    handle-Outcome (ControlRequest.start id) =
        kept (lifecycle-held ext h inputs LifecycleOp.start id j)
    handle-Outcome (ControlRequest.stop id) =
        kept (lifecycle-held ext h inputs LifecycleOp.stop id j)
    handle-Outcome (ControlRequest.pause id) =
        kept (lifecycle-held ext h inputs LifecycleOp.pause id j)
    handle-Outcome (ControlRequest.resume id) =
        kept (lifecycle-held ext h inputs LifecycleOp.resume id j)
    handle-Outcome (ControlRequest.request_elevation client_id server_id mode ttl_secs) =
        kept (issue_mode-held client_id server_id (requested_mode mode ttl_secs))
    handle-Outcome (ControlRequest.submit_elevation client_id nonce signature) =
        elim (submit-Outcome client_id nonce signature) [
          | kept k ↦ kept k
          | gone k ↦ gone k
          | granted e new s ↦ granted e new (by_elevation client_id nonce signature s)
        ]
    handle-Outcome (ControlRequest.request_confirm client_id server_id tool) =
        kept (issue-held h inputs client_id _ j)
    handle-Outcome (ControlRequest.submit_confirm client_id nonce signature) =
        elim (submit-Outcome client_id nonce signature) [
          | kept k ↦ kept k
          | gone k ↦ gone k
          | granted e new s ↦ granted e new (by_confirm client_id nonce signature s)
        ]
    handle-Outcome (ControlRequest.revoke id) = revoke-Outcome id
