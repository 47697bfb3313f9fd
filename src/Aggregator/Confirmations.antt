-- ===== src/Aggregator/Confirmations.antt =====
-- A confirmation serves once, for a while.
use mcp_lock.Prelude.{
  ℕ, suc, ◌-◌, ◌≤◌, String, ◌≡◌, refl, ◌∙◌, inl, inr, Bool, true, ◌&&◌, Option, none, some, List,
  [], ◌∷◌, ◌++◌, arith, Bool-cases, Option-cases, find, any, position, swap_remove,
  swap_remove-perm, count_if, ◌==◌, ==_refl, eq_string, Memᴰ,
}
use mcp_lock.Prelude.Search.{position-eq-some, count_if-Perm}
use mcp_lock.Prelude.Text.{split_once}
use mcp_lock.Prelude.BTreeMap.{get}
use mcp_lock.Prelude.Results.{Result, ok, err}
use mcp_lock.Policy.Grant.{Timestamp}
use mcp_lock.Broker.{ServerSlot, exposed, server}
use mcp_lock.Child.{ChildError, McpChild}
use mcp_lock.Aggregator.Data.{Aggregator, namespace_sep, Confirmation, confirmation_ttl_secs}
use mcp_lock.Aggregator.Lifecycle.{approve_action}
use mcp_lock.Aggregator.Calls.{settle, reach, call_in, call, is_confirmation, needs_presence}
use mcp_lock.Aggregator.Faults.{call-IsSettled}
use mcp_lock.Aggregator.Gate.{IsAdmitted}

-- A confirmation of this action, of whatever age.
abbrev pub is_for : String → String → Confirmation → Bool
is_for server_id tool c = c.server_id == server_id && c.tool == tool

spent :
    (server_id tool : String) (now : Timestamp) (cs : List Confirmation) (i : ℕ)
    → position (is_confirmation server_id tool now) cs ≡ some i
    → count_if (is_for server_id tool) cs
      ≡ suc (count_if (is_for server_id tool) (swap_remove cs i))
spent server_id tool now cs i e =
    let (c, at_i, hit) = position-eq-some (is_confirmation server_id tool now) cs i e in
    let serves : is_for server_id tool c ≡ true = ground arith in
    count_if-Perm (is_for server_id tool) (swap_remove-perm cs i c at_i) ∙ rw serves refl

position_snoc :
    (p : Confirmation → Bool) (cs : List Confirmation) (c : Confirmation)
    → p c ≡ true
    → (i : ℕ) × (position p (cs ++ c ∷ []) ≡ some i)
position_snoc p [] c h = (0, rw h refl)
position_snoc p (d ∷ cs) c h = elim (Bool-cases (p d)) [
  | inl hit ↦ (0, rw hit refl)
  | inr miss ↦ let (i, e) = position_snoc p cs c h in (suc i, rw (miss, e) refl)
]

module _ {Value Child Spawner : Type 0} where
  -- An approval admits the approved action for `confirmation_ttl_secs` seconds, as long as the server
  -- exposes the tool and has a child.
  pub approve_action-IsAdmitted :
      (a : Aggregator Value Child Spawner) (external_name server_id tool : String)
      (now later : Timestamp) (slot : ServerSlot) (c : Child)
      → split_once external_name namespace_sep ≡ some (server_id, tool)
      → server a.state server_id ≡ some slot
      → Memᴰ tool (exposed slot later)
      → get server_id a.children ≡ some c
      → later - now ≤ confirmation_ttl_secs
      → IsAdmitted (approve_action a server_id tool now) external_name later
  unfolding approve_action
  approve_action-IsAdmitted a external_name server_id tool now later slot c named found open_now
        alive young =
      record {
        server_id = server_id;
        tool = tool;
        named = named;
        slot = slot;
        found = found;
        open_now = open_now;
        approved = inr (
            position_snoc (is_confirmation server_id tool later) _ _
              (ground (arith, ==_refl server_id, ==_refl tool)));
        child_now = c;
        alive = alive;
      }

module _ {Value Child Spawner : Type 0} (ops : McpChild Value Child Spawner) where
  settle-confirmations :
      (a : Aggregator Value Child Spawner) (server_id : String) (r : Result Value ChildError)
      → (settle ops a server_id r).1.confirmations ≡ a.confirmations
  settle-confirmations a server_id (ok v) = refl
  settle-confirmations a server_id (err e) = ground arith

  reach-confirmations :
      (a : Aggregator Value Child Spawner) (server_id tool external_name : String)
      (arguments : Value) (o : Option Child)
      → (reach ops a server_id tool arguments external_name o).1.confirmations ≡ a.confirmations
  reach-confirmations a server_id tool external_name arguments none = refl
  reach-confirmations a server_id tool external_name arguments (some c) =
      settle-confirmations _ server_id (ops.call_tool c tool arguments).0

  call_in-spends :
      (a : Aggregator Value Child Spawner) (external_name : String) (arguments : Value)
      (now : Timestamp) (slot : ServerSlot) (server_id tool : String) (v : Value)
      → needs_presence (find (λ t. t.name == tool) slot.tools) ≡ true
      → (call_in ops a slot server_id tool arguments external_name now).0 ≡ ok v
      → count_if (is_for server_id tool) a.confirmations
        ≡ suc (
            count_if
              (is_for server_id tool)
              (call_in ops a slot server_id tool arguments external_name now).1.confirmations)
  unfolding call_in
  call_in-spends a external_name arguments now slot server_id tool v asks h =
      elim (Bool-cases (any (λ t. t == tool) (exposed slot now))) [
        | inr closed ↦ absurd (cc (rw (closed, call_in) at h))
        | inl open_now ↦
            elim (Option-cases (position (is_confirmation server_id tool now) a.confirmations)) [
              | inl e ↦ absurd (cc (rw (open_now, asks, e, call_in) at h))
              | inr (i, e) ↦
                  rw
                    (
                      open_now,
                      asks,
                      e,
                      call_in,
                      reach-confirmations _ server_id tool external_name arguments
                          (get server_id a.children),
                    )
                    (spent server_id tool now a.confirmations i e)
            ]
      ]

  call-spends :
      (a : Aggregator Value Child Spawner) (external_name server_id tool : String)
      (slot : ServerSlot) (arguments : Value) (now : Timestamp) (v : Value)
      → split_once external_name namespace_sep ≡ some (server_id, tool)
      → server a.state server_id ≡ some slot
      → needs_presence (find (λ t. t.name == tool) slot.tools) ≡ true
      → (call ops a external_name arguments now).0 ≡ ok v
      → count_if (is_for server_id tool) a.confirmations
        ≡ suc (
            count_if
              (is_for server_id tool)
              (call ops a external_name arguments now).1.confirmations)
  unfolding call
  call-spends a external_name server_id tool slot arguments now v split found asks h =
      rw (split, found, call)
        (call_in-spends a external_name arguments now slot server_id tool v asks
          (rw (split, found, call) at h))

  -- At most one of two calls of a tool that asks for a confirmation returns a value, where at most one
  -- confirmation of the action was there before: the first that does spends it, whatever the time of the second.
  pub confirmed_once :
      (a : Aggregator Value Child Spawner) (external_name server_id tool : String)
      (slot : ServerSlot) (arguments again : Value) (now later : Timestamp) (v w : Value)
      → split_once external_name namespace_sep ≡ some (server_id, tool)
      → server a.state server_id ≡ some slot
      → needs_presence (find (λ t. t.name == tool) slot.tools) ≡ true
      → count_if (is_for server_id tool) a.confirmations ≤ 1
      → (call ops a external_name arguments now).0 ≡ ok v
      → ¬ ((call ops (call ops a external_name arguments now).1 external_name again later).0 ≡ ok w)
  confirmed_once a external_name server_id tool slot arguments again now later v w split found asks
        once first second =
      let after = (call ops a external_name arguments now).1 in
      let state : after.state ≡ a.state =
        rw first at (call-IsSettled ops a external_name arguments now server_id tool split).state in
      let there : server after.state server_id ≡ some slot = rw state found in
      omega (
        arith,
        once,
        call-spends a external_name server_id tool slot arguments now v split found asks first,
        call-spends after external_name server_id tool slot again later w split there asks second,
      )
