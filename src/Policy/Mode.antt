-- ===== src/Policy/Mode.antt =====
-- crates/core/src/policy.rs: how an elevation ends.
pub data ElevationMode : Type 0 where
  duration until_revoked : ElevationMode
