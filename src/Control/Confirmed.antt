-- ===== src/Control/Confirmed.antt =====
-- A confirmation that is asked for and signed is approved.
use mcp_lock.Prelude.{◌<◌, String, ◌≡◌, refl, some, length, All}
use mcp_lock.Prelude.Bytes.{Bytes}
use mcp_lock.Prelude.Bytes.Range.{IsByte}
use mcp_lock.Prelude.Hex.{to_hex}
use mcp_lock.Prelude.Sync.{lock}
use mcp_lock.Policy.Grant.{Timestamp}
use mcp_lock.Elevation.Challenge.{Nonce, confirm, Verified}
use mcp_lock.Elevation.Store.{max_pending_nonces, prune}
use mcp_lock.Elevation.Binding.{IsNonce, from_hex-to_hex_nonce}
use mcp_lock.Elevation.Verdict.{IsAuthorised, verify-eq-ok_iff}
use mcp_lock.Aggregator.Data.{Aggregator}
use mcp_lock.Aggregator.Lifecycle.{approve_action}
use mcp_lock.Control.Data.{ControlRequest, ControlResponse, Externals, Inputs, Handler, record_line}
use mcp_lock.Control.Grants.{apply_confirm, approve_in}
use mcp_lock.Control.Presence.{submit}
use mcp_lock.Control.Presented.{after_request, issue-eq}
use mcp_lock.Control.Signatures.{decode_hex-to_hex}
use mcp_lock.Control.Handle.{handle}

module _ {Value Child Spawner Key File : Type 0}
    (ext : Externals Value Child Spawner Key File) where
  -- A request for a confirmation gives a nonce, where there is room for one.
  pub request_confirm-eq :
      (h : Handler Value Child Spawner Key File) (inputs : Inputs)
      (client_id server_id tool : String) (nonce : Nonce)
      → lock h.nonces ≡ some h.nonces.value
      → inputs.drawn ≡ some nonce
      → length (prune inputs.now h.nonces.value).pending < max_pending_nonces
      → handle ext h inputs (ControlRequest.request_confirm client_id server_id tool) ≡ (
        ControlResponse.nonce (to_hex nonce),
        after_request ext h client_id (confirm server_id tool) inputs.now nonce,
      )
  unfolding handle
  request_confirm-eq h inputs client_id server_id tool nonce fine drawn room =
      issue-eq ext h inputs client_id (confirm server_id tool) nonce fine drawn room

  -- What a submission answers and does, if it is accepted: the action is approved.
  pub record IsConfirmed (r : ControlResponse × Handler Value Child Spawner Key File)
      (a : Aggregator Value Child Spawner) (server_id tool : String) (now : Timestamp)
      : Type 0 where
    pub message : String
    pub answer : r.0 ≡ ControlResponse.done message
    pub approved : r.1.aggregator.value ≡ approve_action a server_id tool now

  approve-IsConfirmed :
      (h : Handler Value Child Spawner Key File) (inputs : Inputs) (server_id tool : String)
      → lock h.aggregator ≡ some h.aggregator.value
      → IsConfirmed
          (approve_in ext h inputs server_id tool (lock h.aggregator))
          h.aggregator.value
          server_id
          tool
          inputs.now
  unfolding record_line
  approve-IsConfirmed h inputs server_id tool fine =
      rw (fine, approve_in) (record { message = _; answer = refl; approved = refl })

  -- An authorised submission is accepted: the broker says so, and the action is approved.
  pub submit-IsConfirmed :
      (h : Handler Value Child Spawner Key File) (inputs : Inputs)
      (client_id server_id tool : String) (nonce : Nonce) (signature : Bytes)
      → lock h.nonces ≡ some h.nonces.value
      → lock h.aggregator ≡ some h.aggregator.value
      → IsNonce nonce
      → All IsByte signature
      → IsAuthorised ext.verify_strict ext.to_vec h.nonces.value client_id nonce signature
          h.registry inputs.now
          (Verified.confirm server_id tool)
      → IsConfirmed
          (handle ext h inputs
            (ControlRequest.submit_confirm client_id (to_hex nonce) (to_hex signature)))
          h.aggregator.value
          server_id
          tool
          inputs.now
  unfolding handle submit apply_confirm
  submit-IsConfirmed h inputs client_id server_id tool nonce signature open_nonces fine v bytes a =
      let accepted =
        (verify-eq-ok_iff ext.verify_strict ext.to_vec h.nonces.value client_id nonce signature
            h.registry inputs.now (Verified.confirm server_id tool)).1
          a in
      rw
        (
          from_hex-to_hex_nonce nonce v,
          decode_hex-to_hex signature bytes,
          open_nonces,
          submit,
          accepted,
        )
        (approve-IsConfirmed _ inputs server_id tool fine)
