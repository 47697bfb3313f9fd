-- ===== src/Daemon/Closed.antt =====
-- The daemon starts closed.
use mcp_lock.Prelude.{String, ◌≡◌, refl, ap, ◌↔◌, some, List, [], ◌∷◌, Memᴰ, arith}
use mcp_lock.Prelude.BTreeMap.{get}
use mcp_lock.Prelude.Bytes.{as_bytes}
use mcp_lock.Prelude.Results.{Result, ok, err}
use mcp_lock.Prelude.Sync.{Mutex, new_mutex}
use mcp_lock.Manifest.{read, ServerManifest, LoadedManifest}
use mcp_lock.Policy.Grant.{Timestamp}
use mcp_lock.Broker.{ServerSlot, exposed}
use mcp_lock.Auth.{ValidatedClient, validate}
use mcp_lock.Auth.Tokens.{validate_made}
use mcp_lock.Aggregator.Started.{build-Guarded}
use mcp_lock.Aggregator.Data.{Aggregator}
use mcp_lock.Aggregator.Safety.{ungranted_read_only}
use mcp_lock.Aggregator.Actions.{Reach, built}
use mcp_lock.Audit.{AuditLog}
use mcp_lock.Mcp.Outcomes.{handle-Reach, handle-IsWithin}
use mcp_lock.Control.Data.{record_line}
use mcp_lock.Daemon.{
  System, token_env, token_of, ControlOwn, Served, control_of, start_control_channel,
  load_from_path, load_registry, serve,
}
use mcp_lock.Daemon.Asked.{Asked, Asked_lem, Asked-control}
use mcp_lock.Daemon.Starts.{serve-Steps}

none_left : {A : Type 0} (xs ys : List A) → ys ≡ [] → ((x : A) → Memᴰ x xs → Memᴰ x ys) → xs ≡ []
none_left [] ys e within = refl
none_left (x ∷ xs) ys e within = elim (rw e at (within x (Memᴰ.head refl))) [ ]

module _ {Value Child Spawner Key File : Type 0} (sys : System Value Child Spawner Key File)
    (path : String) (spawner : Spawner) (now : Timestamp) where
  -- What the control handler starts with.
  pub record IsNew (own : ControlOwn Key) : Type 0 where
    pub registry : own.registry ≡ (load_registry sys).0
    pub pending : own.nonces.value.pending ≡ []

  pub record IsClosed (s : Served Value Child Spawner Key File) : Type 0 where
    pub loaded : LoadedManifest
    pub loads : load_from_path sys path ≡ ok loaded
    pub read_only :
        (t : Served Value Child Spawner Key File) (slot : ServerSlot) (at : Timestamp)
        (name : String)
        → Asked s t
        → Memᴰ slot t.aggregator.value.state.servers
        → Memᴰ name (exposed slot at)
        → (entry : ServerManifest) × Memᴰ entry loaded.manifest.servers
          × (slot.id ≡ entry.id)
          × (get name entry.tools ≡ some read)
    pub unconfirmed :
        (t : Served Value Child Spawner Key File)
        → Asked s t
        → t.aggregator.value.confirmations ≡ []
    pub guarded :
        (presented : String) (client : ValidatedClient)
        → (validate s.validator (some presented) ≡ ok client) ↔ (
            (as_bytes presented ≡ as_bytes (token_of (sys.var token_env)))
            × (client ≡ record { client_id = "mcp-client" }))
    pub control :
        (t : Served Value Child Spawner Key File) (own : ControlOwn Key)
        → Asked s t
        → t.control ≡ some own
        → IsNew own

  control_of-IsNew :
      (a : Mutex (Aggregator Value Child Spawner)) (audit : AuditLog File)
      (r : Result (Unit {0}) String) (own : ControlOwn Key)
      → control_of sys a (load_registry sys).0 audit now r ≡ some own
      → IsNew own
  unfolding record_line
  control_of-IsNew a audit (ok u) own e = record { registry = ground arith; pending = ground arith }
  control_of-IsNew a audit (err m) own e = absurd (ground arith)

  -- A daemon that serves has loaded the manifest at its path, and starts closed. After any requests
  -- of the MCP client, whatever the children answer, what a slot exposes is declared read-only by an
  -- entry of the manifest with the slot's id, no action is confirmed, and a control handler knows the
  -- registered clients and has given no nonce; and the endpoint accepts the configured token alone.
  pub serve-IsClosed :
      (s : Served Value Child Spawner Key File) → serve sys path spawner now ≡ ok s → IsClosed s
  unfolding start_control_channel
  serve-IsClosed s eq =
      let p = serve-Steps sys path spawner now s eq in
      let (m, g, c) = build-Guarded sys.children p.loaded spawner p.aggregator p.built in
      let same_validator : s.validator ≡ p.validator = ap (λ t. t.validator) p.result in
      let same_aggregator : s.aggregator ≡ new_mutex p.aggregator =
        ap (λ t. t.aggregator) p.result in
      record {
        loaded = p.loaded;
        loads = p.loads;
        read_only = λ t slot at name asked here shown.
            ungranted_read_only p.loaded t.aggregator.value slot at name
              (Asked_lem (Reach p.loaded) s t
                (λ ext h request at wall r. handle-Reach ext p.loaded h request at wall r)
                (rw same_aggregator (built sys.children spawner p.aggregator p.built)) asked)
              here shown;
        unconfirmed = λ t asked.
            Asked_lem (λ a. a.confirmations ≡ []) s t
              (λ ext h request at wall e.
                none_left _ h.aggregator.value.confirmations e
                  (handle-IsWithin ext h request at wall).0.approvals)
              (rw same_aggregator c) asked;
        guarded = λ presented client. rw same_validator (
            validate_made p.validator (token_of (sys.var token_env)) "mcp-client" presented client
              p.made);
        control = λ t own asked e.
            control_of-IsNew s.aggregator s.audit sys.bind_control own
              (rw (← e, Asked-control s t asked, p.result) refl);
      }
