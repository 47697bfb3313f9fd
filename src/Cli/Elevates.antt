-- ===== src/Cli/Elevates.antt =====
-- The command `elevate` elevates.
use mcp_lock.Prelude.{
  ℕ, ◌-◌, ◌≤◌, ◌<◌, String, ◌≡◌, refl, true, Option, none, some, List, [], ◌∷◌, length, find, All,
}
use mcp_lock.Prelude.Bytes.{Bytes}
use mcp_lock.Prelude.Bytes.Range.{IsByte}
use mcp_lock.Prelude.BTreeMap.{BTreeMap, get}
use mcp_lock.Prelude.Results.{ok}
use mcp_lock.Prelude.Sync.{lock, lock-store}
use mcp_lock.Broker.{ServerSlot, grant_elevation, server}
use mcp_lock.Elevation.Challenge.{
  Nonce, Verified, RequestedMode, duration, until_revoked, elevate as elevate_purpose,
  elevation_for, challenge_message, outcome,
}
use mcp_lock.Elevation.Store.{nonce_ttl_secs, max_pending_nonces, signature_length, prune, is_match}
use mcp_lock.Elevation.Binding.{IsNonce}
use mcp_lock.Control.Data.{ControlResponse, Externals, Inputs, Handler}
use mcp_lock.Control.Channel.{Wire, IsFaithful, Served}
use mcp_lock.Control.Presence.{requested_mode}
use mcp_lock.Control.Presented.{after_request, request-eq, IsGranted, submit-IsGranted}
use mcp_lock.Cli.Args.{parse_mode, load_identity}
use mcp_lock.Cli.Output.{Exit, print_response}
use mcp_lock.Cli.Signed.{cli, signature, submitted, submit_signed_lem, signature-IsAuthorised}
use mcp_lock.Cli.Session.{CliExternals, mode_text, mode_ttl, shown, elevate_mode, elevate}

requested_mode-mode_text :
    (wanted : RequestedMode) → requested_mode (mode_text wanted) (mode_ttl wanted) ≡ ok wanted
unfolding requested_mode
requested_mode-mode_text (duration ttl) = refl
requested_mode-mode_text until_revoked = refl

yields_elevation :
    (server_id : String) (wanted : RequestedMode) (now : ℕ)
    → Verified.elevation server_id (elevation_for wanted now)
      ≡ outcome (elevate_purpose server_id wanted) now
unfolding outcome
yields_elevation server_id wanted now = refl

module _ {Value Child Spawner Key File : Type 0} where
  -- The command succeeds; the slot of the server holds the elevation, and is else as it was, as are
  -- the children.
  pub record Elevated (result : Exit × Served Value Child Spawner Key File)
      (children : BTreeMap Child) (server_id : String) (slot : ServerSlot) (wanted : RequestedMode)
      (now : ℕ) : Type 0 where
    pub succeeds : result.0.code ≡ 0
    pub granted :
        server result.1.handler.aggregator.value.state server_id
        ≡ some (grant_elevation (elevation_for wanted now) slot)
    pub kept : result.1.handler.aggregator.value.children ≡ children

module _ {Value Child Spawner Key File SigningKey Line : Type 0}
    (ext : Externals Value Child Spawner Key File) (wire : Wire Line)
    (sign : SigningKey → Bytes → Bytes) (from_bytes : Bytes → SigningKey)
    (lookup : String → Option String) (socket_path : String) where
  abbrev program : CliExternals SigningKey (Served Value Child Spawner Key File)
  program = cli ext wire sign from_bytes lookup socket_path

  shown_code :
      (r : ControlResponse × Handler Value Child Spawner Key File) (rest : List Inputs)
      (children : BTreeMap Child) (server_id : String) (slot : ServerSlot) (wanted : RequestedMode)
      (now : ℕ)
      → IsGranted ext r children server_id slot (elevation_for wanted now)
      → Elevated
          (shown program (ok r.0, record { handler = r.1; inputs = rest }))
          children
          server_id
          slot
          wanted
          now
  unfolding print_response
  shown_code r rest children server_id slot wanted now g = record {
    succeeds = rw g.answer refl;
    granted = g.granted;
    kept = g.kept;
  }

  -- Where a client of the broker is registered with the key that its signing key belongs to, the two
  -- locks are fine, the server is supervised, and the nonce that the broker draws is new to the client
  -- and is signed and submitted within its lifetime, there being room for it, the command `elevate`
  -- succeeds, and the server holds the elevation that was asked for, its slot being as it was
  -- otherwise.
  pub elevate-Elevated :
      (h : Handler Value Child Spawner Key File) (asked signed : Inputs)
      (server_id client_id : String) (flags : List String) (wanted : RequestedMode)
      (signing : SigningKey) (key : Key) (nonce : Nonce) (slot : ServerSlot)
      → IsFaithful wire
      → parse_mode flags ≡ ok wanted
      → load_identity from_bytes lookup ≡ ok (client_id, signing)
      → get client_id h.registry.keys ≡ some key
      → ((m : Bytes)
          → (ext.verify_strict key m (sign signing m) ≡ true)
            × (length (sign signing m) ≡ signature_length)
            × All IsByte (sign signing m))
      → lock h.nonces ≡ some h.nonces.value
      → lock h.aggregator ≡ some h.aggregator.value
      → server h.aggregator.value.state server_id ≡ some slot
      → asked.drawn ≡ some nonce
      → IsNonce nonce
      → find (is_match nonce client_id) h.nonces.value.pending ≡ none
      → length (prune asked.now h.nonces.value).pending < max_pending_nonces
      → signed.now - asked.now ≤ nonce_ttl_secs
      → Elevated
          (elevate program
            (record { handler = h; inputs = asked ∷ signed ∷ [] })
            (server_id ∷ flags))
          h.aggregator.value.children
          server_id
          slot
          wanted
          signed.now
  unfolding elevate
  elevate-Elevated h asked signed server_id client_id flags wanted signing key nonce slot faithful
        mode identity registered signs open_nonces fine there drawn v fresh room young =
      let purpose = elevate_purpose server_id wanted in
      let (verified, sized, bytes) = signs (challenge_message ext.to_vec nonce client_id purpose) in
      rw
        (
          mode,
          identity,
          elevate_mode,
          submit_signed_lem ext sign client_id purpose signing nonce wire from_bytes lookup
              socket_path h asked signed _ faithful v
              (request-eq ext h asked client_id server_id (mode_text wanted) (mode_ttl wanted)
                wanted nonce open_nonces drawn room (requested_mode-mode_text wanted)),
        )
        (shown_code (submitted ext sign client_id purpose signing nonce h asked signed) []
          h.aggregator.value.children server_id slot wanted signed.now
          (submit-IsGranted ext (after_request ext h client_id purpose asked.now nonce) signed
            client_id server_id nonce (signature ext sign client_id purpose signing nonce)
            (elevation_for wanted signed.now) slot (lock-store h.nonces _ open_nonces) fine there v
            bytes
            (signature-IsAuthorised ext sign client_id purpose signing nonce h asked signed key _
              registered verified sized fresh young
              (yields_elevation server_id wanted signed.now))))
