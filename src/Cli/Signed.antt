-- ===== src/Cli/Signed.antt =====
-- A command that is signed: the request of a nonce, and the submission of its signature.
use mcp_lock.Prelude.{◌-◌, ◌≤◌, String, ◌≡◌, refl, true, Option, none, some, [], ◌∷◌, length, find}
use mcp_lock.Prelude.Bytes.{Bytes}
use mcp_lock.Prelude.BTreeMap.{get}
use mcp_lock.Prelude.Hex.{to_hex}
use mcp_lock.Prelude.Results.{ok}
use mcp_lock.Elevation.Challenge.{Nonce, Purpose, Verified, challenge_message, outcome}
use mcp_lock.Elevation.Store.{nonce_ttl_secs, signature_length, prune, is_match, is_fresh}
use mcp_lock.Elevation.Binding.{IsNonce, from_hex-to_hex_nonce}
use mcp_lock.Elevation.Verdict.{IsAuthorised}
use mcp_lock.Control.Data.{ControlRequest, ControlResponse, Externals, Inputs, Handler}
use mcp_lock.Control.Channel.{Wire, IsFaithful, Served, request, request-handle}
use mcp_lock.Control.Presented.{
  find-append_last, find-retain-none, entry_of, is_match_self, after_request,
}
use mcp_lock.Control.Handle.{handle}
use mcp_lock.Cli.Session.{CliExternals, submission, shown, with_nonce, submit_signed}

module _ {Value Child Spawner Key File SigningKey Line : Type 0}
    (ext : Externals Value Child Spawner Key File) (wire : Wire Line)
    (sign : SigningKey → Bytes → Bytes) (from_bytes : Bytes → SigningKey)
    (lookup : String → Option String) (socket_path : String) where
  -- The command line whose channel leads to this broker.
  abbrev pub cli : CliExternals SigningKey (Served Value Child Spawner Key File)
  cli = record {
    sign = sign;
    from_bytes = from_bytes;
    to_vec = ext.to_vec;
    lookup = lookup;
    send = request wire ext;
    socket_path = socket_path;
  }

module _ {Value Child Spawner Key File SigningKey : Type 0}
    (ext : Externals Value Child Spawner Key File) (sign : SigningKey → Bytes → Bytes)
    (client_id : String) (purpose : Purpose) (signing : SigningKey) (nonce : Nonce) where
  abbrev pub signature : Bytes
  signature = sign signing (challenge_message ext.to_vec nonce client_id purpose)

  -- What the broker answers to the submission, and what it is then.
  abbrev pub submitted :
      Handler Value Child Spawner Key File
      → Inputs
      → Inputs
      → ControlResponse × Handler Value Child Spawner Key File
  submitted h asked signed =
      handle ext (after_request ext h client_id purpose asked.now nonce) signed
        (submission purpose client_id (to_hex nonce) (to_hex signature))

  -- Where the broker gives the nonce for the purpose, what the command shows is the answer to the
  -- submission of its signature.
  pub submit_signed_lem :
      {Line : Type 0} (wire : Wire Line) (from_bytes : Bytes → SigningKey)
      (lookup : String → Option String) (socket_path : String)
      (h : Handler Value Child Spawner Key File) (asked signed : Inputs) (r : ControlRequest)
      → IsFaithful wire
      → IsNonce nonce
      → handle ext h asked r ≡ (
        ControlResponse.nonce (to_hex nonce),
        after_request ext h client_id purpose asked.now nonce,
      )
      → submit_signed
          (cli ext wire sign from_bytes lookup socket_path)
          (record { handler = h; inputs = asked ∷ signed ∷ [] })
          signing
          client_id
          r
          purpose
        ≡ shown (cli ext wire sign from_bytes lookup socket_path) (
          ok (submitted h asked signed).0,
          record { handler = (submitted h asked signed).1; inputs = [] },
        )
  unfolding submit_signed
  submit_signed_lem wire from_bytes lookup socket_path h asked signed r faithful v given =
      rw
        (
          request-handle wire ext h asked (signed ∷ []) r faithful,
          given,
          from_hex-to_hex_nonce nonce v,
          with_nonce,
          request-handle wire ext (after_request ext h client_id purpose asked.now nonce) signed []
              (submission purpose client_id (to_hex nonce) (to_hex signature)) faithful,
        )
        refl

  -- The signature of a registered client on a nonce that was just given is accepted.
  pub signature-IsAuthorised :
      (h : Handler Value Child Spawner Key File) (asked signed : Inputs) (key : Key) (v : Verified)
      → get client_id h.registry.keys ≡ some key
      → ext.verify_strict key (challenge_message ext.to_vec nonce client_id purpose) signature
        ≡ true
      → length signature ≡ signature_length
      → find (is_match nonce client_id) h.nonces.value.pending ≡ none
      → signed.now - asked.now ≤ nonce_ttl_secs
      → v ≡ outcome purpose signed.now
      → IsAuthorised ext.verify_strict ext.to_vec
          (after_request ext h client_id purpose asked.now nonce).nonces.value
          client_id
          nonce
          signature
          h.registry
          signed.now
          v
  signature-IsAuthorised h asked signed key v registered verified sized fresh young yields =
      record {
        entry = entry_of client_id purpose asked.now nonce;
        found =
            find-append_last (is_match nonce client_id) (prune asked.now h.nonces.value).pending _
              (find-retain-none (is_match nonce client_id) (is_fresh asked.now)
                h.nonces.value.pending fresh)
              (is_match_self client_id purpose asked.now nonce);
        young = young;
        key = key;
        registered = registered;
        sized = sized;
        signed = verified;
        yields = yields;
      }
