-- ===== src/Audit/Tests.antt =====
-- Tests of the tape, and its theorem at a concrete run.
use mcp_lock.Prelude.{ℕ, min, String, ◌≡◌, refl, Option, none, some, List, [], ◌∷◌}
use mcp_lock.Prelude.Ring.{latest, push_capped, pop_front_while}
use mcp_lock.Audit.{
  AuditEvent, confirm_approved, elevation_revoked, write_tool_invoked, recent_cap, to_file,
  record_event, recent,
}
use mcp_lock.Audit.Tape.{record_all, lines, recent-record_all}

abbrev to_string : ℕ → AuditEvent → Option String
to_string ts (confirm_approved server_id tool) = some tool
to_string ts (elevation_revoked server_id reason) = some reason
to_string ts e = none

abbrev append : List String → String → List String
append f line = line ∷ f

abbrev events : List (ℕ × AuditEvent)
events =
    (1, confirm_approved "mail" "send")
    ∷ (2, elevation_revoked "mail" "operator")
    ∷ (3, write_tool_invoked "mail" "send")
    ∷ []

dropped_oldest : push_capped {A = String} 2 ("a" ∷ "b" ∷ []) "c" ≡ "b" ∷ "c" ∷ []
unfolding push_capped pop_front_while
dropped_oldest = refl

last_two :
    recent (record_all append to_string (to_file []) events) 2
    ≡ "operator" ∷ "{\"ts\":0,\"event\":\"serialize_error\"}" ∷ []
unfolding recent record_all record_event push_capped pop_front_while
last_two = refl

recent-record_all_example :
    recent (record_all append to_string (to_file []) events) 2
    ≡ latest (min 2 recent_cap) (lines to_string events)
recent-record_all_example = recent-record_all append to_string (to_file []) events 2 refl
