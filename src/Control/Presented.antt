-- ===== src/Control/Presented.antt =====
-- An elevation that is asked for and signed is granted.
use mcp_lock.Prelude.{
  ℕ, ◌<◌, String, ◌≡◌, refl, ap, ◌∙◌, inl, inr, Bool, true, false, Option, none, some, List, [],
  ◌∷◌, ◌++◌, arith, length, find, retain, All, Option-cases, ==_refl, eq_string, eq_list, eq_nat,
}
use mcp_lock.Prelude.Bytes.{Bytes}
use mcp_lock.Prelude.BTreeMap.{BTreeMap}
use mcp_lock.Prelude.Bytes.Range.{IsByte}
use mcp_lock.Prelude.Hex.{to_hex}
use mcp_lock.Prelude.Results.{ok}
use mcp_lock.Prelude.Sync.{lock, store}
use mcp_lock.Policy.Grant.{Elevation, Timestamp}
use mcp_lock.Broker.{ServerSlot, grant_elevation, server, server_mut}
use mcp_lock.Broker.Frame.{server-server_mut, server_mut-eq-none_iff}
use mcp_lock.Elevation.Challenge.{Nonce, Purpose, elevate, RequestedMode, Verified}
use mcp_lock.Elevation.Store.{
  max_pending_nonces, NonceStore, Pending, prune, is_match, issue as issue_nonce,
}
use mcp_lock.Elevation.Binding.{IsNonce, from_hex-to_hex_nonce}
use mcp_lock.Elevation.Verdict.{IsAuthorised, verify-eq-ok_iff}
use mcp_lock.Audit.{AuditEvent}
use mcp_lock.Control.Data.{
  ControlRequest, ControlResponse, Externals, Inputs, Handler, record_line, set_aggregator,
  notify_tools_list_changed,
}
use mcp_lock.Control.Commands.{is_changed}
use mcp_lock.Control.Grants.{apply_elevation, regrant, regrant_in}
use mcp_lock.Control.Presence.{requested_mode, issue, issue_in, submit}
use mcp_lock.Control.Signatures.{decode_hex-to_hex}
use mcp_lock.Control.Handle.{handle}

module _ {A : Type 0} (p : A → Bool) where
  pub find-append_last :
      (xs : List A) (x : A) → find p xs ≡ none → p x ≡ true → find p (xs ++ x ∷ []) ≡ some x
  find-append_last [] x e h = rw h refl
  find-append_last (y ∷ ys) x e h = ground (arith, find-append_last ys x)

  pub find-retain-none :
      (q : A → Bool) (xs : List A) → find p xs ≡ none → find p (retain q xs) ≡ none
  find-retain-none q [] e = refl
  find-retain-none q (y ∷ ys) e = ground (arith, find-retain-none q ys)

abbrev pub entry_of : String → Purpose → Timestamp → Nonce → Pending
entry_of client_id purpose now nonce = record {
  nonce = nonce;
  client_id = client_id;
  purpose = purpose;
  issued_at = now;
}

abbrev after_issue : NonceStore → String → Purpose → Timestamp → Nonce → NonceStore
after_issue s client_id purpose now nonce = record {
  pending = (prune now s).pending ++ entry_of client_id purpose now nonce ∷ [];
}

issue_lem :
    (s : NonceStore) (client_id : String) (purpose : Purpose) (now : Timestamp) (nonce : Nonce)
    → length (prune now s).pending < max_pending_nonces
    → issue_nonce s client_id purpose now (some nonce)
      ≡ (ok nonce, after_issue s client_id purpose now nonce)
unfolding issue_nonce
issue_lem s client_id purpose now nonce h = ground arith

pub is_match_self :
    (client_id : String) (purpose : Purpose) (now : Timestamp) (nonce : Nonce)
    → is_match nonce client_id (entry_of client_id purpose now nonce) ≡ true
is_match_self client_id purpose now nonce = ground (arith, ==_refl nonce, ==_refl client_id)

module _ {Value Child Spawner Key File : Type 0}
    (ext : Externals Value Child Spawner Key File) where
  -- The handler after a nonce was given.
  abbrev pub after_request :
      Handler Value Child Spawner Key File
      → String
      → Purpose
      → Timestamp
      → Nonce
      → Handler Value Child Spawner Key File
  after_request h client_id purpose now nonce = record h {
    nonces = store h.nonces (after_issue h.nonces.value client_id purpose now nonce);
  }

  pub issue-eq :
      (h : Handler Value Child Spawner Key File) (inputs : Inputs) (client_id : String)
      (purpose : Purpose) (nonce : Nonce)
      → lock h.nonces ≡ some h.nonces.value
      → inputs.drawn ≡ some nonce
      → length (prune inputs.now h.nonces.value).pending < max_pending_nonces
      → issue ext h inputs client_id purpose
        ≡ (ControlResponse.nonce (to_hex nonce), after_request h client_id purpose inputs.now nonce)
  unfolding issue
  issue-eq h inputs client_id purpose nonce fine drawn room =
      rw (fine, drawn, issue_lem h.nonces.value client_id purpose inputs.now nonce room, issue_in)
        refl

  -- A request for an elevation gives a nonce, where there is room for one.
  pub request-eq :
      (h : Handler Value Child Spawner Key File) (inputs : Inputs) (client_id server_id m : String)
      (ttl_secs : Option ℕ) (wanted : RequestedMode) (nonce : Nonce)
      → lock h.nonces ≡ some h.nonces.value
      → inputs.drawn ≡ some nonce
      → length (prune inputs.now h.nonces.value).pending < max_pending_nonces
      → requested_mode m ttl_secs ≡ ok wanted
      → handle ext h inputs (ControlRequest.request_elevation client_id server_id m ttl_secs) ≡ (
        ControlResponse.nonce (to_hex nonce),
        after_request h client_id (elevate server_id wanted) inputs.now nonce,
      )
  unfolding handle
  request-eq h inputs client_id server_id m ttl_secs wanted nonce fine drawn room asked =
      rw (asked, handle)
        (issue-eq h inputs client_id (elevate server_id wanted) nonce fine drawn room)

  -- What a submission answers and does, if it is accepted: the slot of the server is as it was but for
  -- the elevation, and the children are as they were.
  pub record IsGranted (r : ControlResponse × Handler Value Child Spawner Key File)
      (children : BTreeMap Child) (server_id : String) (slot : ServerSlot) (e : Elevation)
      : Type 0 where
    pub message : String
    pub answer : r.0 ≡ ControlResponse.done message
    pub granted : server r.1.aggregator.value.state server_id ≡ some (grant_elevation e slot)
    pub kept : r.1.aggregator.value.children ≡ children

  notify-aggregator :
      (c : Bool) (h : Handler Value Child Spawner Key File)
      → (notify_tools_list_changed c h).aggregator ≡ h.aggregator
  notify-aggregator true h = refl
  notify-aggregator false h = refl

  regrant-IsGranted :
      (h : Handler Value Child Spawner Key File) (inputs : Inputs) (server_id : String)
      (event : AuditEvent) (line message : String) (e : Elevation) (slot : ServerSlot)
      → lock h.aggregator ≡ some h.aggregator.value
      → server h.aggregator.value.state server_id ≡ some slot
      → IsGranted
          (regrant ext h inputs server_id
            (grant_elevation e)
            event
            line
            message
            (lock h.aggregator))
          h.aggregator.value.children
          server_id
          slot
          e
  unfolding record_line
  regrant-IsGranted h inputs server_id event line message e slot fine there =
      let grant = grant_elevation e in
      elim (Option-cases (server_mut h.aggregator.value.state server_id grant)) [
        | inl gone ↦ absurd (
            ground (
              arith,
              there,
              (server_mut-eq-none_iff h.aggregator.value.state server_id grant).0 gone,
            ))
        | inr (c, done) ↦
            let after = record h.aggregator.value { state = c } in
            let same =
              notify-aggregator (is_changed h.aggregator.value after inputs.now)
                (set_aggregator h after) in
            rw (fine, done, regrant, regrant_in)
              (record {
                message = message;
                answer = refl;
                granted =
                    ap (λ m. server m.value.state server_id) same
                    ∙ server-server_mut h.aggregator.value.state c server_id server_id grant
                        (λ s. refl) done
                    ∙ rw (==_refl server_id, there) refl;
                kept = ap (λ m. m.value.children) same;
              })
      ]

  -- An authorised submission is accepted: the broker says so, and the server is elevated.
  pub submit-IsGranted :
      (h : Handler Value Child Spawner Key File) (inputs : Inputs) (client_id server_id : String)
      (nonce : Nonce) (signature : Bytes) (e : Elevation) (slot : ServerSlot)
      → lock h.nonces ≡ some h.nonces.value
      → lock h.aggregator ≡ some h.aggregator.value
      → server h.aggregator.value.state server_id ≡ some slot
      → IsNonce nonce
      → All IsByte signature
      → IsAuthorised ext.verify_strict ext.to_vec h.nonces.value client_id nonce signature
          h.registry inputs.now
          (Verified.elevation server_id e)
      → IsGranted
          (handle ext h inputs
            (ControlRequest.submit_elevation client_id (to_hex nonce) (to_hex signature)))
          h.aggregator.value.children
          server_id
          slot
          e
  unfolding handle submit apply_elevation
  submit-IsGranted h inputs client_id server_id nonce signature e slot open_nonces fine there v
        bytes a =
      let accepted =
        (verify-eq-ok_iff ext.verify_strict ext.to_vec h.nonces.value client_id nonce signature
            h.registry inputs.now (Verified.elevation server_id e)).1
          a in
      rw
        (
          from_hex-to_hex_nonce nonce v,
          decode_hex-to_hex signature bytes,
          open_nonces,
          submit,
          accepted,
        )
        (regrant-IsGranted _ inputs server_id _ _ _ e slot fine there)
