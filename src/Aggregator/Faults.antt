-- ===== src/Aggregator/Faults.antt =====
-- What a call does to the broker's state.
use mcp_lock.Prelude.{
  ℕ, String, ◌≡◌, refl, ap, ◌∙◌, ◌⊎◌, inl, inr, Memᴰ, swap_remove, Bool, true, false, Option, none,
  some, List, [], arith, Bool-cases, Option-cases, any, find, position, ◌==◌, ==_refl, eq_string,
  if◌then◌else◌,
}
use text.Mathlib.TextEquality.{eq_iff}
use mcp_lock.Prelude.Search.{mem-swap_remove}
use mcp_lock.Prelude.Text.{split_once}
use mcp_lock.Prelude.BTreeMap.{get, insert, get-insert}
use mcp_lock.Prelude.Results.{Result, ok, err}
use mcp_lock.Policy.{resolve_exposure, stopped}
use mcp_lock.Policy.Grant.{Timestamp}
use mcp_lock.Broker.{ServerSlot, BrokerState, exposed, server, server_mut}
use mcp_lock.Broker.Frame.{map_slot, server-server_mut, server_mut-eq-none_iff}
use mcp_lock.Child.{ChildError, io, exited, timeout, McpChild}
use mcp_lock.Aggregator.Data.{AggregatorError, child, Aggregator, Confirmation, namespace_sep}
use mcp_lock.Aggregator.Lifecycle.{if_server_mut, fault}
use mcp_lock.Aggregator.Calls.{
  is_fault, settle, reach, call_in, call, is_confirmation, needs_presence,
}

pub server-if_server_mut :
    (b : BrokerState) (id j : String) (f : ServerSlot → ServerSlot)
    → ((s : ServerSlot) → (f s).id ≡ s.id)
    → server (if_server_mut b id f) j ≡ (if id == j then map_slot f (server b j) else server b j)
server-if_server_mut b id j f k = elim (Option-cases (server_mut b id f)) [
  | inl gone ↦ ground (arith, eq_iff id j, (server_mut-eq-none_iff b id f).0)
  | inr (c, done) ↦ rw done (server-server_mut b c id j f k done)
]

-- A slot that is stopped and holds no elevation, and is else as it was.
abbrev pub closed : ServerSlot → ServerSlot
closed s = record { id = s.id; tools = s.tools; state = stopped; elevation = none }

-- Each slot is as it was, or closed.
abbrev pub KeepsOrCloses : BrokerState → BrokerState → Type 0
KeepsOrCloses b c =
    (id : String) → (server c id ≡ server b id) ⊎ (server c id ≡ map_slot closed (server b id))

-- The child crashed or hung, by the answer of the call.
abbrev pub is_faulted {ℓ} : {A : Type ℓ} → Result A AggregatorError → Bool
is_faulted (err (child e)) = is_fault e
is_faulted _ = false

module _ {Value Child Spawner : Type 0} where
  -- Nothing is granted: the approvals of b were there in a, and so were its children.
  pub record IsWithin (a b : Aggregator Value Child Spawner) : Type 0 where
    pub manifest : b.manifest ≡ a.manifest
    pub approvals : (c : Confirmation) → Memᴰ c b.confirmations → Memᴰ c a.confirmations
    pub children : (id : String) → get id a.children ≡ none → get id b.children ≡ none

  pub IsWithin-refl : (a : Aggregator Value Child Spawner) → IsWithin a a
  IsWithin-refl a = record { manifest = refl; approvals = λ c m. m; children = λ id gone. gone }

module _ {Value Child Spawner : Type 0} (ops : McpChild Value Child Spawner) where
  -- What a call of one server does to the aggregator.
  pub record IsSettled (a : Aggregator Value Child Spawner) (server_id : String)
      (r : Result Value AggregatorError) (b : Aggregator Value Child Spawner) : Type 0 where
    pub within : IsWithin a b
    pub state : b.state ≡ (if is_faulted r then if_server_mut a.state server_id fault else a.state)

  with_state :
      (a b : Aggregator Value Child Spawner) (state : BrokerState)
      → IsWithin a b
      → IsWithin a (record b { state = state })
  with_state a b state w = record {
    manifest = w.manifest;
    approvals = w.approvals;
    children = w.children;
  }

  settle_lem :
      (a b : Aggregator Value Child Spawner) (server_id : String) (r : Result Value ChildError)
      → IsWithin a b
      → b.state ≡ a.state
      → IsSettled a server_id (settle ops b server_id r).0 (settle ops b server_id r).1
  settle_lem a b server_id (ok v) w h = record { within = w; state = h }
  settle_lem a b server_id (err e) w h = elim (Bool-cases (is_fault e)) [
    | inl bad ↦ rw bad (record { within = with_state a b _ w; state = rw (bad, h) refl })
    | inr fine ↦ rw fine (record { within = w; state = rw (fine, h) refl })
  ]

  unchanged :
      (a : Aggregator Value Child Spawner) (server_id : String) (r : Result Value AggregatorError)
      → is_faulted r ≡ false
      → IsSettled a server_id r a
  unchanged a server_id r calm = record { within = IsWithin-refl a; state = rw calm refl }

  -- A child that was there is left as its answer leaves it.
  insert-IsWithin :
      (a b : Aggregator Value Child Spawner) (server_id : String) (c c' : Child)
      → get server_id b.children ≡ some c
      → IsWithin a b
      → IsWithin a (record b { children = insert server_id c' b.children })
  insert-IsWithin a b server_id c c' there w = record {
    manifest = w.manifest;
    approvals = w.approvals;
    children = λ id gone.
        let still = w.children id gone in
        get-insert server_id id c' b.children ∙ ground (arith, eq_iff server_id id);
  }

  reach_lem :
      (a b : Aggregator Value Child Spawner) (server_id tool external_name : String)
      (arguments : Value) (c : Option Child)
      → get server_id b.children ≡ c
      → IsWithin a b
      → b.state ≡ a.state
      → let (r, after) = reach ops b server_id tool arguments external_name c in
        IsSettled a server_id r after
  reach_lem a b server_id tool external_name arguments none there w h = record {
    within = w;
    state = h;
  }
  reach_lem a b server_id tool external_name arguments (some c) there w h =
      settle_lem a _ server_id (ops.call_tool c tool arguments).0
        (insert-IsWithin a b server_id c (ops.call_tool c tool arguments).1 there w) h

  spent :
      (a : Aggregator Value Child Spawner) (i : ℕ)
      → IsWithin a (record a { confirmations = swap_remove a.confirmations i })
  spent a i = record {
    manifest = refl;
    approvals = λ c. mem-swap_remove a.confirmations i c;
    children = λ id gone. gone;
  }

  call_in_lem :
      (a : Aggregator Value Child Spawner) (slot : ServerSlot) (server_id tool : String)
      (arguments : Value) (external_name : String) (now : Timestamp)
      → let (r, after) = call_in ops a slot server_id tool arguments external_name now in
        IsSettled a server_id r after
  unfolding call_in
  call_in_lem a slot server_id tool arguments external_name now =
      elim (Bool-cases (any (λ t. t == tool) (exposed slot now))) [
        | inr closed ↦ rw (closed, call_in) (unchanged a server_id _ refl)
        | inl open_now ↦
            elim (Bool-cases (needs_presence (find (λ t. t.name == tool) slot.tools))) [
              | inr free ↦
                  rw (open_now, free, call_in)
                    (reach_lem a a server_id tool external_name arguments (get server_id a.children)
                      refl (IsWithin-refl a) refl)
              | inl asks ↦
                  elim (Option-cases
                    (position (is_confirmation server_id tool now) a.confirmations)) [
                      | inl e ↦ rw (open_now, asks, e, call_in) (unchanged a server_id _ refl)
                      | inr (i, e) ↦
                          rw (open_now, asks, e, call_in)
                            (reach_lem a _ server_id tool external_name arguments
                              (get server_id a.children) refl (spent a i) refl)
                    ]
            ]
      ]

  -- Only the state of the called server's slot can change, and only where the child crashed or hangs.
  pub call-IsSettled :
      (a : Aggregator Value Child Spawner) (external_name : String) (arguments : Value)
      (now : Timestamp) (server_id tool : String)
      → split_once external_name namespace_sep ≡ some (server_id, tool)
      → let (r, after) = call ops a external_name arguments now in IsSettled a server_id r after
  unfolding call
  call-IsSettled a external_name arguments now server_id tool split =
      elim (Option-cases (server a.state server_id)) [
        | inl gone ↦ rw (split, gone, call) (unchanged a server_id _ refl)
        | inr (slot, found) ↦
            rw (split, found, call) (call_in_lem a slot server_id tool arguments external_name now)
      ]

  pub call_unsplit :
      (a : Aggregator Value Child Spawner) (external_name : String) (arguments : Value)
      (now : Timestamp)
      → split_once external_name namespace_sep ≡ none
      → (call ops a external_name arguments now).1 ≡ a
  unfolding call
  call_unsplit a external_name arguments now split = rw (split, call) refl

abbrev exposed_slot : Timestamp → Option ServerSlot → List String
exposed_slot now none = []
exposed_slot now (some s) = exposed s now

-- What the slot of an id exposes.
abbrev pub exposed_by : BrokerState → String → Timestamp → List String
exposed_by b id now = exposed_slot now (server b id)

exposed_slot-fault :
    (now : Timestamp) (o : Option ServerSlot) → exposed_slot now (map_slot fault o) ≡ []
unfolding resolve_exposure
exposed_slot-fault now none = refl
exposed_slot-fault now (some s) = refl

-- The child closed its output, its pipe failed, or it did not answer in time.
pub data IsCrash : ChildError → Type 0 where
  exits : IsCrash exited
  fails : (e : String) → IsCrash (io e)
  hangs : IsCrash timeout

is_fault-IsCrash : {e : ChildError} → IsCrash e → is_fault e ≡ true
is_fault-IsCrash exits = refl
is_fault-IsCrash (fails e) = refl
is_fault-IsCrash hangs = refl

module _ {Value Child Spawner : Type 0} (ops : McpChild Value Child Spawner) where
  -- Where a call fails because the child crashed or hangs, the slot of the called server is stopped
  -- and holds no elevation, so that it exposes nothing at any later time, and the slot of every other
  -- id is as it was.
  pub fault_closes :
      (a : Aggregator Value Child Spawner) (external_name : String) (arguments : Value)
      (now later : Timestamp) (server_id tool : String) (e : ChildError) (j : String)
      → split_once external_name namespace_sep ≡ some (server_id, tool)
      → (call ops a external_name arguments now).0 ≡ err (child e)
      → IsCrash e
      → let after = (call ops a external_name arguments now).1.state in
        (server after j
          ≡ (if server_id == j then map_slot closed (server a.state j) else server a.state j))
        × (exposed_by after server_id later ≡ [])
  fault_closes a external_name arguments now later server_id tool e j split failed crash =
      let bad = is_fault-IsCrash crash in
      let c = call-IsSettled ops a external_name arguments now server_id tool split in
      let state : (call ops a external_name arguments now).1.state
          ≡ if_server_mut a.state server_id fault =
        ground (arith, c.state) in
      rw state (
        server-if_server_mut a.state server_id j fault (λ s. refl),
        rw (server-if_server_mut a.state server_id server_id fault (λ s. refl), ==_refl server_id)
            (exposed_slot-fault later (server a.state server_id)),
      )

  -- A call grants nothing, and starts nothing.
  pub call-IsWithin :
      (a : Aggregator Value Child Spawner) (external_name : String) (arguments : Value)
      (now : Timestamp)
      → let after = (call ops a external_name arguments now).1 in
        IsWithin a after × KeepsOrCloses a.state after.state
  call-IsWithin a external_name arguments now =
      elim (Option-cases (split_once external_name namespace_sep)) [
        | inl whole ↦
            rw (call_unsplit ops a external_name arguments now whole)
              (IsWithin-refl a, λ id. inl refl)
        | inr ((server_id, tool), split) ↦
            let c = call-IsSettled ops a external_name arguments now server_id tool split in
            (
              c.within,
              elim (Bool-cases (is_faulted (call ops a external_name arguments now).0)) [
                | inr calm ↦ λ id. inl (ap (λ b. server b id) (rw calm at c.state))
                | inl bad ↦ λ id.
                    let e = ap (λ b. server b id) (rw bad at c.state) in
                    let moved = server-if_server_mut a.state server_id id fault (λ s. refl) in
                    elim (Bool-cases (server_id == id)) [
                      | inl hit ↦ inr (e ∙ rw hit at moved)
                      | inr miss ↦ inl (e ∙ rw miss at moved)
                    ]
              ],
            )
      ]
