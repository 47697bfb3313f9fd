-- ===== src/Control/Presence.antt =====
-- crates/broker/src/control_handler.rs: the requests that need a signature.
use mcp_lock.Prelude.{
  ℕ, ◌+◌, ◌*◌, ◌%◌, String, not, Option, none, some, [], ◌∷◌, nat_eq, ◌==◌, eq_string,
  if◌then◌else◌,
}
use mcp_lock.Prelude.Bytes.{Bytes, as_bytes, len}
use mcp_lock.Prelude.Hex.{to_hex, to_digit}
use mcp_lock.Prelude.Results.{Result, ok, err}
use mcp_lock.Prelude.Sync.{lock, store}
use mcp_lock.Elevation.Challenge.{
  Nonce, Purpose, elevate, confirm, RequestedMode, duration, until_revoked, ElevationError,
  error_text, nonce_from_hex,
}
use mcp_lock.Elevation.Store.{NonceStore, issue as issue_nonce, verify_and_consume}
use mcp_lock.Control.Data.{ControlResponse, internal_error, Externals, Inputs, Handler}
use mcp_lock.Control.Grants.{apply_verdict}

-- The digits of a byte, `hi * 16 + lo`, and the bytes that follow.
abbrev pub pair_of : Option ℕ → Option ℕ → Option Bytes → Option Bytes
pair_of (some hi) (some lo) (some rest) = some ((hi * 16 + lo) ∷ rest)
pair_of _ _ _ = none

-- The loop, two bytes at a time. One byte alone is not reached.
unfoldable pub decode_pairs : Bytes → Option Bytes
unfolding to_digit
decode_pairs [] = some []
decode_pairs (x ∷ []) = none
decode_pairs (x ∷ y ∷ rest) = pair_of (to_digit x) (to_digit y) (decode_pairs rest)

unfoldable pub decode_hex : String → Option Bytes
unfolding decode_pairs
decode_hex s = if not (nat_eq (len s % 2) 0) then none else decode_pairs (as_bytes s)

abbrev pub mode_of_duration : Option ℕ → Result RequestedMode String
mode_of_duration (some ttl) = ok (duration ttl)
mode_of_duration none = err "duration mode requires ttl_secs"

-- The match on the requested mode.
unfoldable pub requested_mode : String → Option ℕ → Result RequestedMode String
requested_mode m ttl_secs =
    if m == "duration"
    then mode_of_duration ttl_secs
    else if m == "until_revoked"
    then ok until_revoked
    else err "mode must be \"duration\" or \"until_revoked\""

module _ {Value Child Spawner Key File : Type 0}
    (ext : Externals Value Child Spawner Key File) where
  abbrev pub issued :
      Handler Value Child Spawner Key File
      → Result Nonce ElevationError × NonceStore
      → ControlResponse × Handler Value Child Spawner Key File
  issued h (ok nonce, nonces) =
      (ControlResponse.nonce (to_hex nonce), record h { nonces = store h.nonces nonces })
  issued h (err e, nonces) =
      (ControlResponse.error (error_text e), record h { nonces = store h.nonces nonces })

  abbrev pub issue_in :
      Handler Value Child Spawner Key File
      → Inputs
      → String
      → Purpose
      → Option NonceStore
      → ControlResponse × Handler Value Child Spawner Key File
  issue_in h inputs client_id purpose none = (internal_error, h)
  issue_in h inputs client_id purpose (some nonces) =
      issued h (issue_nonce nonces client_id purpose inputs.now inputs.drawn)

  unfoldable pub issue :
      Handler Value Child Spawner Key File
      → Inputs
      → String
      → Purpose
      → ControlResponse × Handler Value Child Spawner Key File
  issue h inputs client_id purpose = issue_in h inputs client_id purpose (lock h.nonces)

  abbrev pub issue_mode :
      Handler Value Child Spawner Key File
      → Inputs
      → String
      → String
      → Result RequestedMode String
      → ControlResponse × Handler Value Child Spawner Key File
  issue_mode h inputs client_id server_id (ok m) = issue h inputs client_id (elevate server_id m)
  issue_mode h inputs client_id server_id (err e) = (ControlResponse.error e, h)

  abbrev pub request_elevation :
      Handler Value Child Spawner Key File
      → Inputs
      → String
      → String
      → String
      → Option ℕ
      → ControlResponse × Handler Value Child Spawner Key File
  request_elevation h inputs client_id server_id m ttl_secs =
      issue_mode h inputs client_id server_id (requested_mode m ttl_secs)

  abbrev pub request_confirm :
      Handler Value Child Spawner Key File
      → Inputs
      → String
      → String
      → String
      → ControlResponse × Handler Value Child Spawner Key File
  request_confirm h inputs client_id server_id tool =
      issue h inputs client_id (confirm server_id tool)

  abbrev pub verify_in :
      Handler Value Child Spawner Key File
      → Inputs
      → String
      → Nonce
      → Bytes
      → Option NonceStore
      → ControlResponse × Handler Value Child Spawner Key File
  verify_in h inputs client_id nonce signature none = (internal_error, h)
  verify_in h inputs client_id nonce signature (some nonces) =
      let (verified, after) =
        verify_and_consume ext.verify_strict ext.to_vec nonces client_id nonce signature h.registry
          inputs.now in
      apply_verdict ext (record h { nonces = store h.nonces after }) inputs client_id verified

  abbrev pub submit_decoded :
      Handler Value Child Spawner Key File
      → Inputs
      → String
      → Option Nonce
      → Option Bytes
      → ControlResponse × Handler Value Child Spawner Key File
  submit_decoded h inputs client_id none s = (ControlResponse.error "malformed nonce", h)
  submit_decoded h inputs client_id (some nonce) none =
      (ControlResponse.error "malformed signature", h)
  submit_decoded h inputs client_id (some nonce) (some signature) =
      verify_in h inputs client_id nonce signature (lock h.nonces)

  unfoldable pub submit :
      Handler Value Child Spawner Key File
      → Inputs
      → String
      → String
      → String
      → ControlResponse × Handler Value Child Spawner Key File
  submit h inputs client_id nonce_hex signature_hex =
      submit_decoded h inputs client_id (nonce_from_hex nonce_hex) (decode_hex signature_hex)
