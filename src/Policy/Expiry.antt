-- ===== src/Policy/Expiry.antt =====
-- When an elevation is active.
use mcp_lock.Prelude.{ℕ, ◌+◌, ◌≤◌, ◌<◌, ◌≡◌, ◌↔◌, true, arith, u64_max}
use mcp_lock.Policy.Grant.{Elevation, for_duration, is_active}

-- A time-boxed elevation is active exactly before its expiry, which is the end of the window, or
-- the last u64 where the sum overflows; so a window whose end fits a u64 is never cut or extended.
pub is_active-for_duration :
    (granted_at ttl now : ℕ)
    → (is_active (for_duration granted_at ttl) now ≡ true)
      ↔ ((now < granted_at + ttl) × (now < u64_max))
unfolding is_active for_duration
is_active-for_duration granted_at ttl now = ground arith

-- An active elevation was active at every earlier time, and one that has ended never becomes active
-- again.
pub is_active_mono : (e : Elevation) (t u : ℕ) → t ≤ u → is_active e u ≡ true → is_active e t ≡ true
unfolding is_active
is_active_mono e t u h a = ground arith
