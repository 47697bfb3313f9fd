-- ===== src/Client/Answers.antt =====
-- When a request is answered, and by when it ends.
use mcp_lock.Prelude.{
  ℕ, ◌≤◌, String, ◌≡◌, ◌≢◌, ◌↔◌, ◌⊎◌, refl, inl, inr, true, false, Option, none, some, List, [],
  ◌∷◌, arith, Bool-cases, Option-cases,
}
use mcp_lock.Prelude.Bytes.{is_blank}
use mcp_lock.Prelude.Results.{Result, ok, err, Result-cases}
use mcp_lock.Client.Requests.{
  Arrival, ClientExternals, skip, done, is_id, id_in, or_null, judge_value, judge,
}

module _ {Value Pipe : Type 0} (ext : ClientExternals Value Pipe) where
  -- A line that a request does not answer to: a blank one, or a message with another id or none.
  abbrev pub IsNoise : ℕ → Result String String → Type 0
  IsNoise id (err e) = ⊥
  IsNoise id (ok line) =
      (is_blank line ≡ true)
      ⊎ ((v : Value) × (ext.reads.from_str line ≡ ok v)
          × (id_in ext (ext.json.get v "id") ≢ some id))

  -- The response of that id, with this result.
  abbrev pub IsResponse : ℕ → Value → Result String String → Type 0
  IsResponse id r (err e) = ⊥
  IsResponse id r (ok line) =
      (is_blank line ≡ false)
      × (v : Value) × (ext.reads.from_str line ≡ ok v)
      × (id_in ext (ext.json.get v "id") ≡ some id)
      × (ext.json.get v "error" ≡ none)
      × (r ≡ or_null ext (ext.json.get v "result"))

  -- The first item that is no noise is the response, and all up to it are there by the deadline.
  abbrev pub IsAnswered : ℕ → ℕ → Value → List Arrival → Type 0
  IsAnswered id deadline r [] = ⊥
  IsAnswered id deadline r (a ∷ rest) =
      (a.at ≤ deadline)
      × (IsResponse id r a.item ⊎ (IsNoise id a.item × IsAnswered id deadline r rest))

  is_id_iff : (id : ℕ) (o : Option ℕ) → (is_id id o ≡ true) ↔ (o ≡ some id)
  is_id_iff id none = ground arith
  is_id_iff id (some n) = ground arith

  judge_value-skip_iff :
      (id : ℕ) (v : Value)
      → (judge_value ext id (ok v) ≡ skip) ↔ (id_in ext (ext.json.get v "id") ≢ some id)
  judge_value-skip_iff id v = elim (Bool-cases (is_id id (id_in ext (ext.json.get v "id")))) [
    | inl hit ↦
        rw hit (λ h. cc, λ h. absurd (h ((is_id_iff id (id_in ext (ext.json.get v "id"))).0 hit)))
    | inr miss ↦
        rw miss (λ _ e. cc ((is_id_iff id (id_in ext (ext.json.get v "id"))).1 e), λ _. refl)
  ]

  judge_value-done_iff :
      (id : ℕ) (v r : Value)
      → (judge_value ext id (ok v) ≡ done (ok r)) ↔ (
          (id_in ext (ext.json.get v "id") ≡ some id)
          × (ext.json.get v "error" ≡ none)
          × (r ≡ or_null ext (ext.json.get v "result")))
  judge_value-done_iff id v r =
      let i = is_id_iff id (id_in ext (ext.json.get v "id")) in
      elim (Option-cases (ext.json.get v "error")) [
        | inl fine ↦ ground (arith, i)
        | inr (e, bad) ↦ ground (arith, i)
      ]

  pub judge-skip_iff :
      (id : ℕ) (item : Result String String) → (judge ext id item ≡ skip) ↔ IsNoise id item
  unfolding judge
  judge-skip_iff id (err e) = (λ h. cc, λ h. absurd h)
  judge-skip_iff id (ok line) = elim (Bool-cases (is_blank line)) [
    | inl blank ↦ rw blank (λ _. inl refl, λ _. refl)
    | inr full ↦ elim (Result-cases (ext.reads.from_str line)) [
      | inl (v, e) ↦
          rw (full, e, judge)
            (
              λ h. inr (v, refl, (judge_value-skip_iff id v).0 h),
              λ n. elim n [
                | inl b ↦ cc
                | inr (w, ew, ne) ↦
                    let same : w ≡ v = cc in (judge_value-skip_iff id v).1 (rw same at ne)
              ],
            )
      | inr (x, e) ↦
          rw (full, e, judge) (λ h. cc, λ n. elim n [ inl b ↦ cc | inr (w, ew, ne) ↦ cc ])
    ]
  ]

  pub judge-done_iff :
      (id : ℕ) (item : Result String String) (r : Value)
      → (judge ext id item ≡ done (ok r)) ↔ IsResponse id r item
  unfolding judge
  judge-done_iff id (err e) r = (λ h. cc, λ h. absurd h)
  judge-done_iff id (ok line) r = elim (Bool-cases (is_blank line)) [
    | inl blank ↦ rw blank (λ h. cc, λ h. cc)
    | inr full ↦ elim (Result-cases (ext.reads.from_str line)) [
      | inl (v, e) ↦
          rw (full, e, judge)
            (
              λ h. let (i, n, q) = (judge_value-done_iff id v r).0 h in (refl, v, refl, i, n, q),
              λ (f, w, ew, i, n, q).
                  let same : w ≡ v = cc in
                  (judge_value-done_iff id v r).1 (rw same at i, rw same at n, rw same at q),
            )
      | inr (x, e) ↦ rw (full, e, judge) (λ h. cc, λ (f, w, ew, i, n, q). cc)
    ]
  ]
