-- ===== src/Client/Reap.antt =====
-- crates/broker/src/mcp_client.rs: the end of a child, when its client is dropped. Times are
-- milliseconds, and pass only in the sleep.
use mcp_lock.Prelude.{
  ℕ, zero, suc, ◌+◌, ◌*◌, ◌≤◌, ◌<◌, ◌≡◌, ◌≢◌, ◌⊎◌, refl, inl, inr, Bool, true, false, Option, none,
  some, arith, Bool-cases, leb,
}

abbrev pub drop_reap_timeout : ℕ
drop_reap_timeout = 2 * 1000

abbrev pub poll_interval : ℕ
poll_interval = 20

-- `try_wait` at a time: the child runs still, or is reaped, or cannot be waited for.
pub data Waited : Type 0 where
  running reaped failed : Waited

module _ (try_wait : ℕ → Waited) where
  abbrev polled : Waited → Bool → ℕ → Option ℕ → Option ℕ
  polled reaped late now more = some now
  polled failed late now more = some now
  polled running true now more = some now
  polled running false now more = more

  -- The loop, on fuel: the time at which it ends.
  unfoldable pub poll : ℕ → ℕ → ℕ → Option ℕ
  poll zero deadline now = none
  poll (suc fuel) deadline now =
      let more = poll fuel deadline (now + poll_interval) in
      polled (try_wait now) (leb deadline now) now more

  abbrev pub rounds : ℕ
  rounds = 101

  -- `drop`, once the child is killed.
  unfoldable pub drop_client : ℕ → Option ℕ
  unfolding poll
  drop_client now = poll rounds (now + drop_reap_timeout) now

  Waited-cases : (w : Waited) → (w ≡ running) ⊎ (w ≢ running)
  Waited-cases running = inl refl
  Waited-cases reaped = inr (λ e. cc)
  Waited-cases failed = inr (λ e. cc)

  -- How the loop ends: at this time, before one more poll would be due, and with the child still
  -- running only where the deadline is over.
  abbrev pub EndsAt : ℕ → Option ℕ → ℕ → Type 0
  EndsAt deadline result end =
      (result ≡ some end)
      × (end < deadline + poll_interval)
      × (try_wait end ≡ running → deadline ≤ end)

  polled-stopped :
      (w : Waited) (late : Bool) (now : ℕ) (more : Option ℕ)
      → w ≢ running
      → polled w late now more ≡ some now
  polled-stopped reaped late now more h = refl
  polled-stopped failed late now more h = refl
  polled-stopped running late now more h = absurd (h refl)

  polled_ends :
      (deadline now : ℕ) (more : Option ℕ)
      → now < deadline + poll_interval
      → (leb deadline now ≡ false → (end : ℕ) × EndsAt deadline more end)
      → (end : ℕ) × EndsAt deadline (polled (try_wait now) (leb deadline now) now more) end
  polled_ends deadline now more h go_on = elim (Waited-cases (try_wait now)) [
    | inr stopped ↦ (
      now,
      (
        polled-stopped (try_wait now) (leb deadline now) now more stopped,
        h,
        λ e. absurd (stopped e),
      ),
    )
    | inl up ↦ elim (Bool-cases (leb deadline now)) [
      | inl late ↦ (now, (rw (up, late, polled) refl, h, λ e. ground arith))
      | inr early ↦ let (end, e) = go_on early in (end, rw (up, early, polled) e)
    ]
  ]

  poll_ends :
      (fuel deadline now : ℕ)
      → now < deadline + poll_interval
      → deadline ≤ now + fuel * poll_interval
      → (end : ℕ) × EndsAt deadline (poll (suc fuel) deadline now) end
  unfolding poll
  poll_ends zero deadline now h d = polled_ends deadline now _ h (λ early. absurd (ground arith))
  poll_ends (suc fuel) deadline now h d =
      polled_ends deadline now _ h
        (λ early. poll_ends fuel deadline (now + poll_interval) (ground arith) (omega arith))

  -- The drop of a client ends within two seconds and one poll, whatever its child does, and leaves one
  -- that still runs only after these two seconds.
  pub drop_client_ends :
      (now : ℕ) → (end : ℕ) × EndsAt (now + drop_reap_timeout) (drop_client now) end
  unfolding drop_client
  drop_client_ends now = poll_ends 100 (now + drop_reap_timeout) now (omega arith) (omega arith)
