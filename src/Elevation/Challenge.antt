-- ===== src/Elevation/Challenge.antt =====
-- crates/core/src/elevation.rs: the data of a challenge and the message that a client signs.
use mcp_lock.Prelude.{ℕ, String, Option, none, some}
use mcp_lock.Prelude.Bytes.{Bytes}
use mcp_lock.Prelude.Hex.{to_hex, from_hex}
use mcp_lock.Policy.Grant.{Elevation, Timestamp, for_duration, until_revoked as until_revoked_from}

abbrev pub nonce_len : ℕ
nonce_len = 32

-- The bytes of a nonce, `nonce_len` of them.
abbrev pub Nonce : Type 0
Nonce = Bytes

unfoldable pub nonce_from_hex : String → Option Nonce
nonce_from_hex s = from_hex nonce_len s

pub data RequestedMode : Type 0 where
  duration : (ttl_secs : ℕ) → RequestedMode
  until_revoked : RequestedMode

pub data Purpose : Type 0 where
  elevate : (server_id : String) (mode : RequestedMode) → Purpose
  confirm : (server_id tool : String) → Purpose

pub data Verified : Type 0 where
  elevation : (server_id : String) (elevation : Elevation) → Verified
  confirm : (server_id tool : String) → Verified

pub data ElevationError : Type 0 where
  rng unknown_or_used_nonce too_many_pending nonce_expired unknown_client malformed bad_signature :
      ElevationError

abbrev pub error_text : ElevationError → String
error_text rng = "random number generation failed"
error_text unknown_or_used_nonce = "unknown or already-used nonce"
error_text too_many_pending = "too many outstanding nonces"
error_text nonce_expired = "nonce expired"
error_text unknown_client = "unknown client"
error_text malformed = "malformed key or signature"
error_text bad_signature = "signature verification failed"

-- The document that is serialized.
pub record Doc : Type 0 where
  pub v : ℕ
  pub purpose : String
  pub client : String
  pub nonce : String
  pub server : String
  pub tool : Option String
  pub mode : Option String
  pub ttl : Option ℕ

abbrev mode_text : RequestedMode → String
mode_text (duration ttl_secs) = "duration"
mode_text until_revoked = "until_revoked"

abbrev mode_ttl : RequestedMode → Option ℕ
mode_ttl (duration ttl_secs) = some ttl_secs
mode_ttl until_revoked = none

unfoldable pub challenge_doc : Nonce → String → Purpose → Doc
challenge_doc nonce client_id (elevate server_id mode) = record {
  v = 1;
  purpose = "elevate";
  client = client_id;
  nonce = to_hex nonce;
  server = server_id;
  tool = none;
  mode = some (mode_text mode);
  ttl = mode_ttl mode;
}
challenge_doc nonce client_id (confirm server_id tool) = record {
  v = 1;
  purpose = "confirm";
  client = client_id;
  nonce = to_hex nonce;
  server = server_id;
  tool = some tool;
  mode = none;
  ttl = none;
}

unfoldable pub challenge_message : (Doc → Bytes) → Nonce → String → Purpose → Bytes
unfolding challenge_doc
challenge_message to_vec nonce client_id purpose = to_vec (challenge_doc nonce client_id purpose)

abbrev pub elevation_for : RequestedMode → Timestamp → Elevation
elevation_for (duration ttl_secs) now = for_duration now ttl_secs
elevation_for until_revoked now = until_revoked_from now

-- What a verified purpose yields.
unfoldable pub outcome : Purpose → Timestamp → Verified
outcome (elevate server_id mode) now = Verified.elevation server_id (elevation_for mode now)
outcome (confirm server_id tool) now = Verified.confirm server_id tool
