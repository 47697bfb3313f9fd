-- ===== src/Client/Hung.antt =====
-- What a call comes to when the child answers, and when it hangs.
use mcp_lock.Prelude.{ℕ, ◌≤◌, String, ◌≡◌, refl, ◌∙◌, ◌↔◌, some, [], ◌∷◌, ==_refl, eq_string}
use mcp_lock.Prelude.BTreeMap.{get, get-insert}
use mcp_lock.Prelude.Results.{Result, ok, err}
use mcp_lock.Manifest.{ServerManifest}
use mcp_lock.Policy.Grant.{Timestamp}
use mcp_lock.Child.{timeout}
use mcp_lock.Aggregator.Data.{Aggregator, child}
use mcp_lock.Aggregator.Calls.{call}
use mcp_lock.Aggregator.Gate.{IsAdmitted, call-IsReached, call-eq-ok_iff}
use mcp_lock.Aggregator.Faults.{exposed_by, fault_closes, hangs}
use mcp_lock.Client.Answers.{IsAnswered}
use mcp_lock.Client.Deadline.{IsSilent}
use mcp_lock.Client.Operations.{call_tool}
use mcp_lock.Client.Requests.{ClientExternals}
use mcp_lock.Client.Supervised.{Process, Supervised, supervised}
use mcp_lock.Client.Timely.{write_of, deadline_of, request-eq-ok_iff, request_ends}

module _ {Value Pipe : Type 0} (ext : ClientExternals Value Pipe) where
  abbrev params : Value → String → Value
  params arguments tool =
      ext.json.object (("name", ext.json.string tool) ∷ ("arguments", arguments) ∷ [])

  -- The write of the request of a tool into the pipe of a child returns, and succeeds.
  abbrev pub IsAsked : Supervised Pipe → String → Value → Type 0
  IsAsked c tool arguments =
      (write_of ext c.client c.now "tools/call" (params arguments tool)).0 ≡ ok tt

  -- The deadline of that request: the timeout after the write returned.
  abbrev pub deadline : Supervised Pipe → String → Value → ℕ
  deadline c tool arguments = deadline_of ext c.client c.now "tools/call" (params arguments tool)

  -- The child answers the request with this value in time.
  abbrev pub Answers : Supervised Pipe → String → Value → Value → Type 0
  Answers c tool arguments v =
      IsAnswered ext c.client.next_id (deadline c tool arguments) v c.client.rx.arrivals

  -- The child says nothing to the request in time.
  abbrev pub Hangs : Supervised Pipe → String → Value → Type 0
  Hangs c tool arguments =
      IsSilent ext c.client.next_id (deadline c tool arguments) c.client.rx.closed
        c.client.rx.arrivals

module _ {Value Pipe Spawner : Type 0} (ext : ClientExternals Value Pipe)
    (launch : Spawner → ServerManifest → Result (Process Pipe) String × Spawner)
    (a : Aggregator Value (Supervised Pipe) Spawner) (external_name : String) (arguments : Value)
    (now : Timestamp) where
  -- A call returns a value exactly when the gate admits it, the request gets into the pipe of the
  -- child, and the child answers that request with this value in time.
  pub call-Answers_iff :
      (v : Value)
      → ((call (supervised ext launch) a external_name arguments now).0 ≡ ok v) ↔ (
          (g : IsAdmitted a external_name now) × IsAsked ext g.child_now g.tool arguments
          × Answers ext g.child_now g.tool arguments v)
  unfolding call_tool
  call-Answers_iff v =
      let (to, from) = call-eq-ok_iff (supervised ext launch) a external_name arguments now v in
      (
        λ h.
            let (g, e) = to h in
            let (asked, answered) =
              (request-eq-ok_iff ext g.child_now.client g.child_now.now "tools/call"
                  (params ext arguments g.tool) v).0
                e in
            (g, asked, answered),
        λ (g, asked, answered). from (
          g,
          (request-eq-ok_iff ext g.child_now.client g.child_now.now "tools/call"
                (params ext arguments g.tool) v).1
              (asked, answered),
        ),
      )

  -- Where the gate admits a call, the write of its request into the pipe of the child returns and
  -- succeeds, and the child then hangs, the call times out: the child is left by the deadline of the
  -- request, which is the timeout after the write returned, and its slot exposes nothing at any later
  -- time.
  pub hung_closes :
      (g : IsAdmitted a external_name now) (later : Timestamp)
      → IsAsked ext g.child_now g.tool arguments
      → Hangs ext g.child_now g.tool arguments
      → let (r, after) = call (supervised ext launch) a external_name arguments now in
        (r ≡ err (child timeout))
        × ((c : Supervised Pipe) × (get g.server_id after.children ≡ some c)
            × (c.now ≤ deadline ext g.child_now g.tool arguments))
        × (exposed_by after.state g.server_id later ≡ [])
  unfolding call_tool
  hung_closes g later asked silent =
      let ops = supervised ext launch in
      let q = call-IsReached ops a external_name arguments now g in
      let (ends, times_out, next) =
        request_ends ext g.child_now.client g.child_now.now "tools/call"
          (params ext arguments g.tool) in
      let failed = times_out.1 (asked, silent) in
      let answer : (call ops a external_name arguments now).0 ≡ err (child timeout) =
        rw (q.settled, failed) refl in
      (
        answer,
        (
          (ops.call_tool g.child_now g.tool arguments).1,
          rw (q.settled, failed, q.children)
              (get-insert g.server_id g.server_id _ a.children ∙ rw (==_refl g.server_id) refl),
          ends,
        ),
        (fault_closes ops a external_name arguments now later g.server_id g.tool timeout g.server_id
            g.named answer hangs).1,
      )
