-- ===== src/Client/Deadline.antt =====
-- By when a request ends, and with what.
use mcp_lock.Prelude.{
  ℕ, ◌+◌, ◌-◌, ◌≤◌, ◌<◌, String, ◌≡◌, ap, ◌∙◌, ◌≢◌, ◌↔◌, ◌⊎◌, refl, inl, inr, Bool, true, false,
  Option, List, [], ◌∷◌, arith, Bool-cases, Option-cases, leb,
}
use mcp_lock.Prelude.Bytes.{is_blank}
use mcp_lock.Prelude.Results.{Result, ok, err, Result-cases}
use mcp_lock.Child.{ChildError, timeout, exited}
use mcp_lock.Client.Requests.{
  Arrival, ClientExternals, Verdict, skip, done, later, is_id, id_in, judge, is_by, wait,
}
use mcp_lock.Client.Answers.{IsNoise, IsAnswered, judge-skip_iff, judge-done_iff}

Verdict-cases :
    {Value : Type 0} (v : Verdict Value)
    → (v ≡ skip) ⊎ ((r : Result Value ChildError) × (v ≡ done r))
Verdict-cases skip = inl refl
Verdict-cases (done r) = inr (r, refl)

module _ {Value Pipe : Type 0} (ext : ClientExternals Value Pipe) where
  -- Until the deadline there is only noise, and the reader has not ended.
  abbrev pub IsSilent : ℕ → ℕ → Option ℕ → List Arrival → Type 0
  IsSilent id deadline closed [] = is_by deadline closed ≡ false
  IsSilent id deadline closed (a ∷ rest) =
      (deadline < a.at)
      ⊎ ((a.at ≤ deadline) × IsNoise ext id a.item × IsSilent id deadline closed rest)

  abbrev end_of : Bool → Result Value ChildError
  end_of true = err exited
  end_of false = err timeout

  module _ (id deadline : ℕ) (closed : Option ℕ) where
    wait-nil :
        (now : ℕ)
        → now ≤ deadline
        → (wait ext id deadline closed [] now).0 ≡ end_of (is_by deadline closed)
    unfolding wait
    wait-nil now h =
        let e : now + (deadline - now) ≡ deadline = omega arith in
        rw e (elim (Bool-cases (is_by deadline closed)) [
          | inl ended ↦ rw ended refl
          | inr open_still ↦ rw open_still refl
        ])

    -- The step of the loop, before the deadline.
    wait-late :
        (a : Arrival) (rest : List Arrival) (now : ℕ)
        → now ≤ deadline
        → deadline < a.at
        → wait ext id deadline closed (a ∷ rest) now ≡ (err timeout, deadline, a ∷ rest)
    unfolding wait
    wait-late a rest now h l = ground arith

    wait-skip :
        (a : Arrival) (rest : List Arrival) (now : ℕ)
        → now ≤ deadline
        → a.at ≤ deadline
        → judge ext id a.item ≡ skip
        → wait ext id deadline closed (a ∷ rest) now
          ≡ wait ext id deadline closed rest (later now a.at)
    unfolding wait
    wait-skip a rest now h l s = ground arith

    wait-done :
        (a : Arrival) (rest : List Arrival) (now : ℕ) (r : Result Value ChildError)
        → now ≤ deadline
        → a.at ≤ deadline
        → judge ext id a.item ≡ done r
        → wait ext id deadline closed (a ∷ rest) now ≡ (r, later now a.at, rest)
    unfolding wait
    wait-done a rest now r h l d = ground arith

    pub wait-end-le :
        (arrivals : List Arrival) (now : ℕ)
        → now ≤ deadline
        → (wait ext id deadline closed arrivals now).1 ≤ deadline
    unfolding wait
    wait-end-le [] now h = elim (Option-cases closed) [
      | inl e ↦ rw e (omega arith)
      | inr (c, e) ↦ rw e (ground arith)
    ]
    wait-end-le (a ∷ rest) now h = elim (Verdict-cases (judge ext id a.item)) [
      | inl s ↦ ground (arith, wait-end-le rest (later now a.at))
      | inr (r, d) ↦ ground arith
    ]

    judge-ne-timeout : (item : Result String String) → judge ext id item ≢ done (err timeout)
    unfolding judge
    judge-ne-timeout (err e) h = cc
    judge-ne-timeout (ok line) h = elim (Bool-cases (is_blank line)) [
      | inl blank ↦ ground arith
      | inr full ↦ elim (Result-cases (ext.reads.from_str line)) [
        | inl (v, e) ↦ elim (Bool-cases (is_id id (id_in ext (ext.json.get v "id")))) [
          | inl hit ↦ elim (Option-cases (ext.json.get v "error")) [
            | inl fine ↦ ground arith
            | inr (x, bad) ↦ ground arith
          ]
          | inr miss ↦ ground arith
        ]
        | inr (x, e) ↦ ground arith
      ]
    ]

    pub wait-timeout_iff :
        (arrivals : List Arrival) (now : ℕ)
        → now ≤ deadline
        → ((wait ext id deadline closed arrivals now).0 ≡ err timeout)
          ↔ IsSilent id deadline closed arrivals
    wait-timeout_iff [] now h = elim (Bool-cases (is_by deadline closed)) [
      | inl ended ↦ rw (wait-nil now h, ended, end_of) (λ q. cc, λ q. cc)
      | inr open_still ↦ rw (wait-nil now h, open_still, end_of) (λ q. refl, λ q. refl)
    ]
    wait-timeout_iff (a ∷ rest) now h =
        let (is_noise, skips) = judge-skip_iff ext id a.item in
        elim (Bool-cases (leb a.at deadline)) [
          | inl there ↦ elim (Verdict-cases (judge ext id a.item)) [
            | inl s ↦ rw (wait-skip a rest now h (ground arith) s) (
                let (to, from) = wait-timeout_iff rest (later now a.at) (ground arith) in
                (
                  λ e. inr (ground arith, is_noise s, to e),
                  λ x. elim x [ inl l ↦ absurd (ground arith) | inr (l, n, more) ↦ from more ],
                ))
            | inr (r, d) ↦ rw (wait-done a rest now r h (ground arith) d) (
              λ e. absurd (judge-ne-timeout a.item (d ∙ ap done e)),
              λ x. elim x [ inl l ↦ absurd (ground arith) | inr (l, n, more) ↦ cc (skips n) ],
            )
          ]
          | inr late ↦
              rw (wait-late a rest now h (ground arith)) (λ e. inl (ground arith), λ x. refl)
        ]

    pub wait-eq-ok_iff :
        (arrivals : List Arrival) (now : ℕ) (v : Value)
        → now ≤ deadline
        → ((wait ext id deadline closed arrivals now).0 ≡ ok v)
          ↔ IsAnswered ext id deadline v arrivals
    wait-eq-ok_iff [] now v h = elim (Bool-cases (is_by deadline closed)) [
      | inl ended ↦ rw (wait-nil now h, ended, end_of) (λ q. cc, λ q. absurd q)
      | inr open_still ↦ rw (wait-nil now h, open_still, end_of) (λ q. cc, λ q. absurd q)
    ]
    wait-eq-ok_iff (a ∷ rest) now v h =
        let (answers, responds) = judge-done_iff ext id a.item v in
        let (is_noise, skips) = judge-skip_iff ext id a.item in
        elim (Bool-cases (leb a.at deadline)) [
          | inl there ↦ elim (Verdict-cases (judge ext id a.item)) [
            | inl s ↦ rw (wait-skip a rest now h (ground arith) s) (
                let (to, from) = wait-eq-ok_iff rest (later now a.at) v (ground arith) in
                (
                  λ e. (ground arith, inr (is_noise s, to e)),
                  λ (l, x). elim x [ inl q ↦ cc (responds q) | inr (n, more) ↦ from more ],
                ))
            | inr (r, d) ↦ rw (wait-done a rest now r h (ground arith) d) (
              λ e. (ground arith, inl (answers (d ∙ ap done e))),
              λ (l, x). elim x [ inl q ↦ cc (responds q) | inr (n, more) ↦ cc (skips n) ],
            )
          ]
          | inr late ↦
              rw (wait-late a rest now h (ground arith)) (λ e. cc, λ (l, x). absurd (ground arith))
        ]
