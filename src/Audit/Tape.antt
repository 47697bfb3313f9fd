-- ===== src/Audit/Tape.antt =====
-- What the tape remembers.
use mathlib.Core.List.{append_assoc, append-nil}
use mcp_lock.Prelude.{
  ℕ, ◌-◌, min, String, ◌≡◌, refl, ap, ◌∙◌, Option, List, [], ◌∷◌, ◌++◌, arith, drop, length,
  length-append,
}
use mcp_lock.Prelude.Sync.{new_mutex}
use mcp_lock.Prelude.Ring.{
  push_capped, latest, push_capped-latest, latest-latest, pop_front_while-latest,
}
use mcp_lock.Audit.{AuditEvent, AuditLog, recent_cap, serialize_line, record_event, recent}

abbrev pub lines : (ℕ → AuditEvent → Option String) → List (ℕ × AuditEvent) → List String
lines to_string [] = []
lines to_string ((ts, e) ∷ es) = serialize_line to_string ts e ∷ lines to_string es

skipped :
    (limit : ℕ) (xs : List String) → drop (length xs - min limit (length xs)) xs ≡ latest limit xs
skipped limit xs =
    let k : length xs - min limit (length xs) ≡ length xs - limit = omega arith in
    ap (λ d. drop d xs) k

module _ {File : Type 0} (append : File → String → File)
    (to_string : ℕ → AuditEvent → Option String) where
  -- The events of a run, each with its time, in order.
  unfoldable pub record_all : AuditLog File → List (ℕ × AuditEvent) → AuditLog File
  record_all log [] = log
  record_all log ((ts, e) ∷ es) = record_all (record_event append to_string log ts e) es

  record_event-recent_lines :
      (log : AuditLog File) (past : List String) (ts : ℕ) (e : AuditEvent)
      → log.recent_lines ≡ new_mutex (latest recent_cap past)
      → (record_event append to_string log ts e).recent_lines
        ≡ new_mutex (latest recent_cap (past ++ serialize_line to_string ts e ∷ []))
  unfolding record_event
  record_event-recent_lines log past ts e h =
      rw h (ap new_mutex (push_capped-latest recent_cap past (serialize_line to_string ts e)))

  record_all-recent_lines :
      (log : AuditLog File) (past : List String) (es : List (ℕ × AuditEvent))
      → log.recent_lines ≡ new_mutex (latest recent_cap past)
      → (record_all log es).recent_lines
        ≡ new_mutex (latest recent_cap (past ++ lines to_string es))
  unfolding record_all
  record_all-recent_lines log past [] h = rw (append-nil past) h
  record_all-recent_lines log past ((ts, e) ∷ es) h =
      record_all-recent_lines (record_event append to_string log ts e)
        (past ++ serialize_line to_string ts e ∷ []) es (record_event-recent_lines log past ts e h)
      ∙ ap (λ l. new_mutex (latest recent_cap l))
          (append_assoc past (serialize_line to_string ts e ∷ []) (lines to_string es))

  -- A tape that starts empty answers with the lines of the last events recorded, oldest first: as
  -- many as asked for, up to `recent_cap`.
  pub recent-record_all :
      (log : AuditLog File) (es : List (ℕ × AuditEvent)) (limit : ℕ)
      → log.recent_lines ≡ new_mutex []
      → recent (record_all log es) limit ≡ latest (min limit recent_cap) (lines to_string es)
  unfolding recent
  recent-record_all log es limit h = rw (record_all-recent_lines log [] es h) (
      skipped limit (latest recent_cap (lines to_string es))
      ∙ latest-latest limit recent_cap (lines to_string es))

drop-length : (xs : List String) (x : String) → drop (length xs) (xs ++ x ∷ []) ≡ x ∷ []
drop-length [] x = refl
drop-length (y ∷ xs) x = drop-length xs x

latest_one : (xs : List String) (x : String) → latest 1 (xs ++ x ∷ []) ≡ x ∷ []
latest_one xs x =
    let k : length (xs ++ x ∷ []) - 1 ≡ length xs = omega (arith, length-append xs (x ∷ [])) in
    ap (λ d. drop d (xs ++ x ∷ [])) k ∙ drop-length xs x

module _ {File : Type 0} (append : File → String → File)
    (to_string : ℕ → AuditEvent → Option String) where
  -- The last line of a tape is that of the event just recorded.
  pub recent-record_event :
      (log : AuditLog File) (past : List String) (ts : ℕ) (e : AuditEvent)
      → log.recent_lines ≡ new_mutex past
      → recent (record_event append to_string log ts e) 1 ≡ serialize_line to_string ts e ∷ []
  unfolding recent record_event push_capped
  recent-record_event log past ts e h =
      let line = serialize_line to_string ts e in
      rw h (
        skipped 1 (push_capped recent_cap past line)
        ∙ ap (latest 1) (pop_front_while-latest recent_cap (past ++ line ∷ []))
        ∙ latest-latest 1 recent_cap (past ++ line ∷ [])
        ∙ latest_one past line)
