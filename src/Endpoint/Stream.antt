-- ===== src/Endpoint/Stream.antt =====
-- crates/transport/src/endpoint.rs: the reader behind an event stream.
use mcp_lock.Prelude.{
  ℕ, zero, suc, ◌+◌, ◌-◌, ◌≤◌, ◌<◌, min, String, ◌≡◌, refl, ◌↔◌, inl, inr, [], ◌∷◌, ◌++◌, take,
  drop, length, length-drop, leb, arith, Bool-cases, if◌then◌else◌,
}
use mcp_lock.Prelude.Bytes.{Bytes, as_bytes}

-- What `recv_timeout` answers.
pub data Received : Type 0 where
  message : String → Received
  timeout disconnected : Received

pub record SseReader : Type 0 where
  pub buf : Bytes
  pub pos : ℕ

abbrev pub connected_frame : Bytes
connected_frame =
    b':' ∷ b' ' ∷ b'c' ∷ b'o' ∷ b'n' ∷ b'n' ∷ b'e' ∷ b'c' ∷ b't' ∷ b'e' ∷ b'd' ∷ 10 ∷ 10 ∷ []

abbrev pub keepalive_frame : Bytes
keepalive_frame =
    b':' ∷ b' ' ∷ b'k' ∷ b'e' ∷ b'e' ∷ b'p' ∷ b'a' ∷ b'l' ∷ b'i' ∷ b'v' ∷ b'e' ∷ 10 ∷ 10 ∷ []

abbrev pub data_frame : String → Bytes
data_frame m = b'd' ∷ b'a' ∷ b't' ∷ b'a' ∷ b':' ∷ b' ' ∷ (as_bytes m ++ 10 ∷ 10 ∷ [])

abbrev pub new_reader : SseReader
new_reader = record { buf = connected_frame; pos = 0 }

-- The bytes that go to a buffer of that size, and the reader after it.
abbrev copy_out : SseReader → ℕ → Bytes × SseReader
copy_out r size =
    let n = min size (length r.buf - r.pos) in
    (take n (drop r.pos r.buf), record r { pos = r.pos + n })

abbrev refilled : SseReader → ℕ → Received → Bytes × SseReader
refilled r size (message m) = copy_out (record { buf = data_frame m; pos = 0 }) size
refilled r size timeout = copy_out (record { buf = keepalive_frame; pos = 0 }) size
refilled r size disconnected = ([], r)

-- `received` is the answer of the channel, if it is asked.
unfoldable pub read : SseReader → ℕ → Received → Bytes × SseReader
read r size received =
    if leb (length r.buf) r.pos then refilled r size received else copy_out r size

take-nonempty : (n : ℕ) (xs : Bytes) → 0 < n → 0 < length xs → ¬ (take n xs ≡ [])
take-nonempty zero xs h k e = absurd (omega arith)
take-nonempty (suc n) [] h k e = absurd (omega arith)
take-nonempty (suc n) (x ∷ xs) h k e = ground arith

copy_out-nonempty :
    (r : SseReader) (size : ℕ) → 0 < size → r.pos < length r.buf → ¬ ((copy_out r size).0 ≡ [])
copy_out-nonempty r size h k =
    take-nonempty (min size (length r.buf - r.pos)) (drop r.pos r.buf) (omega arith)
      (omega (arith, length-drop r.pos r.buf))

refilled-nil_iff :
    (r : SseReader) (size : ℕ) (received : Received)
    → 0 < size
    → ((refilled r size received).0 ≡ []) ↔ (received ≡ disconnected)
refilled-nil_iff r size (message m) h = (
  λ e. absurd (copy_out-nonempty (record { buf = data_frame m; pos = 0 }) size h (omega arith) e),
  λ e. cc,
)
refilled-nil_iff r size timeout h = (
  λ e.
      absurd (copy_out-nonempty (record { buf = keepalive_frame; pos = 0 }) size h (omega arith) e),
  λ e. cc,
)
refilled-nil_iff r size disconnected h = (λ _. refl, λ _. refl)

-- The stream ends, for a buffer that is not empty, only where what was pending is delivered and the
-- sender is gone: neither a message nor silence ends it.
pub read-nil_iff :
    (r : SseReader) (size : ℕ) (received : Received)
    → 0 < size
    → ((read r size received).0 ≡ []) ↔ ((length r.buf ≤ r.pos) × (received ≡ disconnected))
unfolding read
read-nil_iff r size received h = elim (Bool-cases (leb (length r.buf) r.pos)) [
  | inl empty ↦ rw (empty, read) (ground (arith, refilled-nil_iff r size received h))
  | inr pending ↦ rw (pending, read) (ground (arith, copy_out-nonempty r size h))
]
