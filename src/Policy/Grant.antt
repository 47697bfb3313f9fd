-- ===== src/Policy/Grant.antt =====
-- crates/core/src/policy.rs: a write elevation and its expiry. Times are u64 seconds.
use mcp_lock.Prelude.{ℕ, Bool, true, Option, none, some, ltb, saturating_add}
use mcp_lock.Policy.Mode.{ElevationMode}

abbrev pub Timestamp : Type 0
Timestamp = ℕ

pub record Elevation : Type 0 where
  pub granted_at : Timestamp
  pub expires_at : Option Timestamp

unfoldable pub for_duration : Timestamp → Timestamp → Elevation
for_duration granted_at ttl_secs = record {
  granted_at = granted_at;
  expires_at = some (saturating_add granted_at ttl_secs);
}

unfoldable pub until_revoked : Timestamp → Elevation
until_revoked granted_at = record { granted_at = granted_at; expires_at = none }

abbrev mode_of : Option Timestamp → ElevationMode
mode_of (some _) = ElevationMode.duration
mode_of none = ElevationMode.until_revoked

unfoldable pub mode : Elevation → ElevationMode
mode e = mode_of e.expires_at

abbrev is_before : Timestamp → Option Timestamp → Bool
is_before now (some expiry) = ltb now expiry
is_before now none = true

unfoldable pub is_active : Elevation → Timestamp → Bool
is_active e now = is_before now e.expires_at
