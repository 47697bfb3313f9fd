-- ===== src/Cli/Confirms.antt =====
-- The command `confirm` confirms.
use mcp_lock.Prelude.{
  ℕ, ◌-◌, ◌≤◌, ◌<◌, String, ◌≡◌, refl, true, false, Option, none, some, List, [], ◌∷◌, length, find,
  All, Memᴰ,
}
use mcp_lock.Prelude.Bytes.{Bytes}
use mcp_lock.Prelude.Bytes.Range.{IsByte}
use mcp_lock.Prelude.BTreeMap.{get}
use mcp_lock.Prelude.Results.{ok}
use mcp_lock.Prelude.Sync.{lock, lock-store}
use mcp_lock.Prelude.Text.{◌+++◌, contains, split_once-append}
use mcp_lock.Policy.Grant.{Timestamp}
use mcp_lock.Broker.{ServerSlot, exposed, server}
use mcp_lock.Elevation.Challenge.{
  Nonce, Purpose, Verified, confirm as confirm_purpose, challenge_message, outcome,
}
use mcp_lock.Elevation.Store.{nonce_ttl_secs, max_pending_nonces, signature_length, prune, is_match}
use mcp_lock.Elevation.Binding.{IsNonce}
use mcp_lock.Aggregator.Data.{Aggregator, namespace_sep, confirmation_ttl_secs}
use mcp_lock.Aggregator.Lifecycle.{approve_action}
use mcp_lock.Aggregator.Gate.{IsAdmitted}
use mcp_lock.Aggregator.Confirmations.{approve_action-IsAdmitted}
use mcp_lock.Control.Data.{ControlResponse, Externals, Inputs, Handler}
use mcp_lock.Control.Channel.{Wire, IsFaithful, Served}
use mcp_lock.Control.Presented.{after_request}
use mcp_lock.Control.Confirmed.{request_confirm-eq, IsConfirmed, submit-IsConfirmed}
use mcp_lock.Cli.Args.{load_identity}
use mcp_lock.Cli.Output.{Exit, print_response}
use mcp_lock.Cli.Signed.{cli, signature, submitted, submit_signed_lem, signature-IsAuthorised}
use mcp_lock.Cli.Session.{CliExternals, shown, confirm_as, confirm}

yields_confirm :
    (server_id tool : String) (now : ℕ)
    → Verified.confirm server_id tool ≡ outcome (confirm_purpose server_id tool) now
unfolding outcome
yields_confirm server_id tool now = refl

module _ {Value Child Spawner Key File SigningKey Line : Type 0}
    (ext : Externals Value Child Spawner Key File) (wire : Wire Line)
    (sign : SigningKey → Bytes → Bytes) (from_bytes : Bytes → SigningKey)
    (lookup : String → Option String) (socket_path : String) where
  abbrev program : CliExternals SigningKey (Served Value Child Spawner Key File)
  program = cli ext wire sign from_bytes lookup socket_path

  -- The command succeeds, and the action is approved.
  abbrev Confirmed :
      Exit × Served Value Child Spawner Key File
      → Aggregator Value Child Spawner
      → String
      → String
      → Timestamp
      → Type 0
  Confirmed result a server_id tool now =
      (result.0.code ≡ 0)
      × (result.1.handler.aggregator.value ≡ approve_action a server_id tool now)

  shown_code :
      (r : ControlResponse × Handler Value Child Spawner Key File) (rest : List Inputs)
      (a : Aggregator Value Child Spawner) (server_id tool : String) (now : Timestamp)
      → IsConfirmed ext r a server_id tool now
      → Confirmed
          (shown program (ok r.0, record { handler = r.1; inputs = rest }))
          a
          server_id
          tool
          now
  unfolding print_response
  shown_code r rest a server_id tool now g = (rw g.answer refl, g.approved)

  module _ (h : Handler Value Child Spawner Key File) (asked signed : Inputs)
      (server_id tool client_id : String) (signing : SigningKey) (key : Key) (nonce : Nonce) where
    abbrev ran : Exit × Served Value Child Spawner Key File
    ran =
        confirm program (record { handler = h; inputs = asked ∷ signed ∷ [] })
          (server_id ∷ tool ∷ [])

    confirm-Confirmed :
        IsFaithful wire
        → load_identity from_bytes lookup ≡ ok (client_id, signing)
        → get client_id h.registry.keys ≡ some key
        → ((m : Bytes)
            → (ext.verify_strict key m (sign signing m) ≡ true)
              × (length (sign signing m) ≡ signature_length)
              × All IsByte (sign signing m))
        → lock h.nonces ≡ some h.nonces.value
        → lock h.aggregator ≡ some h.aggregator.value
        → asked.drawn ≡ some nonce
        → IsNonce nonce
        → find (is_match nonce client_id) h.nonces.value.pending ≡ none
        → length (prune asked.now h.nonces.value).pending < max_pending_nonces
        → signed.now - asked.now ≤ nonce_ttl_secs
        → Confirmed ran h.aggregator.value server_id tool signed.now
    unfolding confirm
    confirm-Confirmed faithful identity registered signs open_nonces fine drawn v fresh room young =
        let purpose : Purpose = confirm_purpose server_id tool in
        let (verified, sized, bytes) =
          signs (challenge_message ext.to_vec nonce client_id purpose) in
        rw
          (
            identity,
            confirm_as,
            submit_signed_lem ext sign client_id purpose signing nonce wire from_bytes lookup
                socket_path h asked signed _ faithful v
                (request_confirm-eq ext h asked client_id server_id tool nonce open_nonces drawn
                  room),
          )
          (shown_code (submitted ext sign client_id purpose signing nonce h asked signed) []
            h.aggregator.value server_id tool signed.now
            (submit-IsConfirmed ext (after_request ext h client_id purpose asked.now nonce) signed
              client_id server_id tool nonce (signature ext sign client_id purpose signing nonce)
              (lock-store h.nonces _ open_nonces) fine v bytes
              (signature-IsAuthorised ext sign client_id purpose signing nonce h asked signed key _
                registered verified sized fresh young (yields_confirm server_id tool signed.now))))

    -- Where a client of the broker is registered with the key that its signing key belongs to, the two
    -- locks are fine, and the nonce that the broker draws is new to the client and is signed and
    -- submitted within its lifetime, there being room for it, the command `confirm` succeeds, and for
    -- the 30 seconds that follow, as long as the server exposes the tool and has a child, the gate
    -- admits a call of the tool that was confirmed.
    pub confirm-IsAdmitted :
        (later : Timestamp) (slot : ServerSlot) (c : Child)
        → IsFaithful wire
        → load_identity from_bytes lookup ≡ ok (client_id, signing)
        → get client_id h.registry.keys ≡ some key
        → ((m : Bytes)
            → (ext.verify_strict key m (sign signing m) ≡ true)
              × (length (sign signing m) ≡ signature_length)
              × All IsByte (sign signing m))
        → lock h.nonces ≡ some h.nonces.value
        → lock h.aggregator ≡ some h.aggregator.value
        → asked.drawn ≡ some nonce
        → IsNonce nonce
        → find (is_match nonce client_id) h.nonces.value.pending ≡ none
        → length (prune asked.now h.nonces.value).pending < max_pending_nonces
        → signed.now - asked.now ≤ nonce_ttl_secs
        → contains server_id namespace_sep ≡ false
        → server h.aggregator.value.state server_id ≡ some slot
        → Memᴰ tool (exposed slot later)
        → get server_id h.aggregator.value.children ≡ some c
        → later - signed.now ≤ confirmation_ttl_secs
        → let (exit, w) =
            confirm program
              (record { handler = h; inputs = asked ∷ signed ∷ [] })
              (server_id ∷ tool ∷ []) in
          (exit.code ≡ 0)
          × IsAdmitted w.handler.aggregator.value (server_id +++ ("." +++ tool)) later
    confirm-IsAdmitted later slot c faithful identity registered signs open_nonces fine drawn v
          fresh room young whole there shows child_there recent =
        let (succeeds, approved) =
          confirm-Confirmed faithful identity registered signs open_nonces fine drawn v fresh room
            young in
        (
          succeeds,
          rw approved (
              approve_action-IsAdmitted h.aggregator.value (server_id +++ ("." +++ tool)) server_id
                tool signed.now later slot c (split_once-append server_id tool whole) there shows
                child_there recent),
        )
