-- ===== src/Aggregator/Gate.antt =====
-- What a call needs before it reaches a child.
use mcp_lock.Prelude.{
  ℕ, String, ◌≡◌, refl, ◌↔◌, ◌⊎◌, inl, inr, false, Option, none, some, arith, Bool-cases,
  Option-cases, any, find, position, ◌==◌, ==_refl, subst, eq_string, Memᴰ,
}
use text.Mathlib.TextEquality.{eq_iff}
use mcp_lock.Prelude.Search.{any-eq-true, any_of_mem}
use mcp_lock.Prelude.Text.{split_once}
use mcp_lock.Prelude.BTreeMap.{get, insert}
use mcp_lock.Prelude.Results.{Result, ok, err}
use mcp_lock.Policy.Grant.{Timestamp}
use mcp_lock.Broker.{ServerSlot, exposed, server}
use mcp_lock.Child.{ChildError, McpChild}
use mcp_lock.Aggregator.Data.{Aggregator, AggregatorError, namespace_sep}
use mcp_lock.Aggregator.Calls.{settle, reach, call_in, call, is_confirmation, needs_presence}

module _ {Value Child Spawner : Type 0} where
  -- The gate: the name is that of a tool that its server exposes at this time, the server has a child,
  -- and where the tool's class asks for it there is a confirmation that serves.
  pub record IsAdmitted (a : Aggregator Value Child Spawner) (external_name : String)
      (now : Timestamp) : Type 0 where
    pub server_id : String
    pub tool : String
    pub named : split_once external_name namespace_sep ≡ some (server_id, tool)
    pub slot : ServerSlot
    pub found : server a.state server_id ≡ some slot
    pub open_now : Memᴰ tool (exposed slot now)
    pub approved :
        (needs_presence (find (λ t. t.name == tool) slot.tools) ≡ false)
        ⊎ ((i : ℕ) × (position (is_confirmation server_id tool now) a.confirmations ≡ some i))
    pub child_now : Child
    pub alive : get server_id a.children ≡ some child_now

module _ {Value Child Spawner : Type 0} (ops : McpChild Value Child Spawner) where
  settle-eq-ok :
      (a : Aggregator Value Child Spawner) (server_id : String) (r : Result Value ChildError)
      (v : Value)
      → ((settle ops a server_id r).0 ≡ ok v) ↔ (r ≡ ok v)
  settle-eq-ok a server_id (ok w) v = ground arith
  settle-eq-ok a server_id (err e) v = ground arith

  reach-eq-ok :
      (a : Aggregator Value Child Spawner) (server_id tool external_name : String)
      (arguments v : Value) (o : Option Child)
      → (reach ops a server_id tool arguments external_name o).0 ≡ ok v
      → (c : Child) × (o ≡ some c) × ((ops.call_tool c tool arguments).0 ≡ ok v)
  reach-eq-ok a server_id tool external_name arguments v none h = cc
  reach-eq-ok a server_id tool external_name arguments v (some c) h =
      (c, refl, (settle-eq-ok _ server_id _ v).0 h)

  -- What the gate of one slot lets through.
  record IsOpen (a : Aggregator Value Child Spawner) (slot : ServerSlot) (server_id tool : String)
      (arguments v : Value) (now : Timestamp) : Type 0 where
    open_now : Memᴰ tool (exposed slot now)
    approved :
        (needs_presence (find (λ t. t.name == tool) slot.tools) ≡ false)
        ⊎ ((i : ℕ) × (position (is_confirmation server_id tool now) a.confirmations ≡ some i))
    child_now : Child
    alive : get server_id a.children ≡ some child_now
    answers : (ops.call_tool child_now tool arguments).0 ≡ ok v

  call_in-eq-ok :
      (a : Aggregator Value Child Spawner) (slot : ServerSlot)
      (server_id tool external_name : String) (arguments v : Value) (now : Timestamp)
      → (call_in ops a slot server_id tool arguments external_name now).0 ≡ ok v
      → IsOpen a slot server_id tool arguments v now
  unfolding call_in
  call_in-eq-ok a slot server_id tool external_name arguments v now h =
      elim (Bool-cases (any (λ t. t == tool) (exposed slot now))) [
        | inr closed ↦ absurd (cc (rw (closed, call_in) at h))
        | inl open_now ↦
            let (t, listed, same) = any-eq-true (λ t. t == tool) (exposed slot now) open_now in
            let here : Memᴰ tool (exposed slot now) =
              subst (λ x. Memᴰ x (exposed slot now)) ((eq_iff t tool).0 same) listed in
            elim (Bool-cases (needs_presence (find (λ t. t.name == tool) slot.tools))) [
              | inr free ↦
                  let (c, alive, answers) =
                    reach-eq-ok a server_id tool external_name arguments v _
                      (rw (open_now, free, call_in) at h) in
                  record {
                    open_now = here;
                    approved = inl free;
                    child_now = c;
                    alive = alive;
                    answers = answers;
                  }
              | inl asks ↦
                  elim (Option-cases
                    (position (is_confirmation server_id tool now) a.confirmations)) [
                      | inl e ↦ absurd (cc (rw (open_now, asks, e, call_in) at h))
                      | inr (i, e) ↦
                          let (c, alive, answers) =
                            reach-eq-ok _ server_id tool external_name arguments v _
                              (rw (open_now, asks, e, call_in) at h) in
                          record {
                            open_now = here;
                            approved = inr (i, e);
                            child_now = c;
                            alive = alive;
                            answers = answers;
                          }
                    ]
            ]
      ]

  call-eq-ok :
      (a : Aggregator Value Child Spawner) (external_name : String) (arguments : Value)
      (now : Timestamp) (v : Value)
      → (call ops a external_name arguments now).0 ≡ ok v
      → (g : IsAdmitted a external_name now) × ((ops.call_tool g.child_now g.tool arguments).0
          ≡ ok v)
  unfolding call
  call-eq-ok a external_name arguments now v h =
      elim (Option-cases (split_once external_name namespace_sep)) [
        | inl whole ↦ absurd (cc (rw (whole, call) at h))
        | inr ((server_id, tool), split) ↦ elim (Option-cases (server a.state server_id)) [
          | inl gone ↦ absurd (cc (rw (split, gone, call) at h))
          | inr (slot, found) ↦
              let o =
                call_in-eq-ok a slot server_id tool external_name arguments v now
                  (rw (split, found, call) at h) in
              (
                record {
                  server_id = server_id;
                  tool = tool;
                  named = split;
                  slot = slot;
                  found = found;
                  open_now = o.open_now;
                  approved = o.approved;
                  child_now = o.child_now;
                  alive = o.alive;
                },
                o.answers,
              )
        ]
      ]

  -- What an admitted call comes to: the answer of the child is settled in an aggregator that has the
  -- child as it was left, and the broker's state as it was.
  pub record IsReached (a : Aggregator Value Child Spawner) (server_id : String)
      (answer : Result Value ChildError × Child)
      (r : Result Value AggregatorError × Aggregator Value Child Spawner) : Type 0 where
    pub asked : Aggregator Value Child Spawner
    pub children : asked.children ≡ insert server_id answer.1 a.children
    pub settled : r ≡ settle ops asked server_id answer.0

  reached :
      (a b : Aggregator Value Child Spawner) (server_id tool external_name : String)
      (arguments : Value) (c : Child)
      → b.children ≡ a.children
      → IsReached a server_id
          (ops.call_tool c tool arguments)
          (reach ops b server_id tool arguments external_name (some c))
  reached a b server_id tool external_name arguments c same = record {
    asked = record b { children = insert server_id (ops.call_tool c tool arguments).1 b.children };
    children = rw same refl;
    settled = refl;
  }

  call_in-IsReached :
      (a : Aggregator Value Child Spawner) (external_name : String) (arguments : Value)
      (now : Timestamp) (g : IsAdmitted a external_name now)
      → IsReached a g.server_id
          (ops.call_tool g.child_now g.tool arguments)
          (call_in ops a g.slot g.server_id g.tool arguments external_name now)
  unfolding call_in
  call_in-IsReached a external_name arguments now g =
      let here =
        any_of_mem (λ t. t == g.tool) (exposed g.slot now) g.tool g.open_now (==_refl g.tool) in
      let free_reached = reached a a g.server_id g.tool external_name arguments g.child_now refl in
      elim g.approved [
        | inl free ↦ rw (here, free, g.alive, call_in) free_reached
        | inr (i, e) ↦
            elim (Bool-cases (needs_presence (find (λ t. t.name == g.tool) g.slot.tools))) [
              | inr free ↦ rw (here, free, g.alive, call_in) free_reached
              | inl asks ↦
                  rw (here, asks, e, g.alive, call_in)
                    (reached a _ g.server_id g.tool external_name arguments g.child_now refl)
            ]
      ]

  pub call-IsReached :
      (a : Aggregator Value Child Spawner) (external_name : String) (arguments : Value)
      (now : Timestamp) (g : IsAdmitted a external_name now)
      → IsReached a g.server_id
          (ops.call_tool g.child_now g.tool arguments)
          (call ops a external_name arguments now)
  unfolding call
  call-IsReached a external_name arguments now g =
      rw (g.named, g.found, call) (call_in-IsReached a external_name arguments now g)

  -- A call returns a value exactly when the gate admits it and the child answers that value to the
  -- tool's own name.
  pub call-eq-ok_iff :
      (a : Aggregator Value Child Spawner) (external_name : String) (arguments : Value)
      (now : Timestamp) (v : Value)
      → ((call ops a external_name arguments now).0 ≡ ok v) ↔ (
          (g : IsAdmitted a external_name now) × ((ops.call_tool g.child_now g.tool arguments).0
            ≡ ok v))
  call-eq-ok_iff a external_name arguments now v = (
    call-eq-ok a external_name arguments now v,
    λ (g, answers).
        let q = call-IsReached a external_name arguments now g in
        rw q.settled ((settle-eq-ok q.asked g.server_id _ v).1 answers),
  )
