-- ===== src/Client/Timely.antt =====
-- When a request returns a value, and by when it ends.
use mcp_lock.Prelude.{ℕ, ◌+◌, ◌%◌, ◌^◌, ◌≤◌, String, ◌≡◌, ap, ◌≢◌, ◌↔◌, refl, inl, inr, arith}
use mcp_lock.Prelude.Results.{Result, ok, err, Result-cases}
use mcp_lock.Child.{ChildError, timeout}
use mcp_lock.Client.Requests.{
  StdioMcpClient, ClientExternals, Writer, message, sent, as_io, writer, next, write_line, written,
  request,
}
use mcp_lock.Client.Answers.{IsAnswered}
use mcp_lock.Client.Deadline.{IsSilent, wait-end-le, wait-timeout_iff, wait-eq-ok_iff}

as_io-ne-timeout :
    {Pipe : Type 0} (w : Result (Unit {0}) String × Writer Pipe) → (as_io w).0 ≢ err timeout
as_io-ne-timeout (ok u, p) h = cc
as_io-ne-timeout (err e, p) h = cc

module _ {Value Pipe : Type 0} (ext : ClientExternals Value Pipe) where
  write_line-ne-timeout : (w : Writer Pipe) (v : Value) → (write_line ext w v).0 ≢ err timeout
  unfolding write_line
  write_line-ne-timeout w v h = elim (Result-cases (ext.reads.to_string v)) [
    | inl (line, e) ↦ as_io-ne-timeout _ (rw (e, written) at h)
    | inr (x, e) ↦ ground arith
  ]

  module _ (c : StdioMcpClient Pipe) (id : ℕ) where
    sent-eq-ok_iff :
        (v : Value) (w : Result (Unit {0}) ChildError × Writer Pipe)
        → ((sent ext c id w).0 ≡ ok v)
          ↔ ((w.0 ≡ ok tt) × IsAnswered ext id (w.1.now + c.timeout) v c.rx.arrivals)
    sent-eq-ok_iff v (err e, w) = (λ h. cc, λ h. cc)
    sent-eq-ok_iff v (ok u, w) =
        let (to, from) =
          wait-eq-ok_iff ext id (w.now + c.timeout) c.rx.closed c.rx.arrivals w.now v
            (omega arith) in
        (λ h. (refl, to h), λ (u, h). from h)

    sent_lem :
        (w : Result (Unit {0}) ChildError × Writer Pipe)
        → w.0 ≢ err timeout
        → ((sent ext c id w).1 ≤ w.1.now + c.timeout)
          × (((sent ext c id w).0 ≡ err timeout)
              ↔ ((w.0 ≡ ok tt) × IsSilent ext id (w.1.now + c.timeout) c.rx.closed c.rx.arrivals))
          × ((sent ext c id w).2.next_id ≡ c.next_id)
    sent_lem (err e, w) ne = (
      omega arith,
      (λ h. let same : e ≡ timeout = cc in absurd (ne (ap err same)), λ h. cc),
      refl,
    )
    sent_lem (ok u, w) ne =
        let (to, from) =
          wait-timeout_iff ext id (w.now + c.timeout) c.rx.closed c.rx.arrivals w.now
            (omega arith) in
        (
          wait-end-le ext id (w.now + c.timeout) c.rx.closed c.rx.arrivals w.now (omega arith),
          (λ h. (refl, to h), λ (u, h). from h),
          refl,
        )

  -- What the write of a request answers, and the pipe once it returned.
  abbrev pub write_of :
      StdioMcpClient Pipe → ℕ → String → Value → Result (Unit {0}) ChildError × Writer Pipe
  write_of c now method params =
      write_line ext (writer ext c now) (message ext c.next_id method params)

  -- The deadline of a request, which is set once its write returned.
  abbrev pub deadline_of : StdioMcpClient Pipe → ℕ → String → Value → ℕ
  deadline_of c now method params = (write_of c now method params).1.now + c.timeout

  -- A request returns a value exactly when it is written and the child answers: up to a response with
  -- the id of this request, which bears no error and gives that value, all lines are noise, and all of
  -- them are there by the deadline, which is the timeout after the write returned. A response to
  -- another request is never taken for it.
  pub request-eq-ok_iff :
      (c : StdioMcpClient Pipe) (now : ℕ) (method : String) (params v : Value)
      → ((request ext c now method params).0 ≡ ok v) ↔ (
          ((write_of c now method params).0 ≡ ok tt)
          × IsAnswered ext c.next_id (deadline_of c now method params) v c.rx.arrivals)
  unfolding request
  request-eq-ok_iff c now method params v =
      sent-eq-ok_iff (record c { next_id = next ext c.next_id }) c.next_id v
        (write_of c now method params)

  pub request_ends :
      (c : StdioMcpClient Pipe) (now : ℕ) (method : String) (params : Value)
      → ((request ext c now method params).1 ≤ deadline_of c now method params)
        × (((request ext c now method params).0 ≡ err timeout) ↔ (
            ((write_of c now method params).0 ≡ ok tt)
            × IsSilent ext c.next_id (deadline_of c now method params) c.rx.closed c.rx.arrivals))
        × ((request ext c now method params).2.next_id ≡ (c.next_id + 1) % 2 ^ 64)
  unfolding request
  request_ends c now method params =
      sent_lem (record c { next_id = next ext c.next_id }) c.next_id (write_of c now method params)
        (write_line-ne-timeout (writer ext c now) (message ext c.next_id method params))
