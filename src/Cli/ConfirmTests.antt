-- ===== src/Cli/ConfirmTests.antt =====
-- A run of the command `confirm`, for a tool that an elevation exposes.
use mcp_lock.Prelude.{String, ◌≡◌, refl, Bool, true, some, List, [], ◌∷◌, ℕ, Memᴰ, arith}
use mcp_lock.Prelude.Sync.{new_mutex}
use mcp_lock.Prelude.Text.{contains, sort}
use mcp_lock.Manifest.{confirm}
use mcp_lock.Policy.{running, resolve_exposure}
use mcp_lock.Policy.Grant.{until_revoked, is_active}
use mcp_lock.Broker.{ServerSlot, server}
use mcp_lock.Aggregator.Gate.{IsAdmitted}
use mcp_lock.Control.Data.{Handler}
use mcp_lock.Cli.Confirms.{confirm-IsAdmitted}
use mcp_lock.Cli.Session.{confirm as confirm_command}
use mcp_lock.Cli.Signed.{cli}
use mcp_lock.Cli.Tests.{
  ext, handler, drawn, asked, signed, wire, wire-IsFaithful, sign, first_byte, lookup, identity,
}

abbrev elevated_slot : ServerSlot
elevated_slot = record {
  id = "files";
  tools = record { name = "wipe"; class = confirm } ∷ [];
  state = running;
  elevation = some (until_revoked 0);
}

abbrev elevated : Handler String Bool ℕ ℕ (List String)
elevated = record handler {
  aggregator =
      new_mutex
        (record handler.aggregator.value { state = record { servers = elevated_slot ∷ [] } });
}

supervised : server elevated.aggregator.value.state "files" ≡ some elevated_slot
unfolding server
supervised = refl

confirm-IsAdmitted_example :
    let (exit, w) =
      confirm_command
        (cli ext wire sign first_byte lookup "sock")
        (record { handler = elevated; inputs = asked ∷ signed ∷ [] })
        ("files" ∷ "wipe" ∷ []) in
    (exit.code ≡ 0) × IsAdmitted w.handler.aggregator.value "files.wipe" 70
unfolding contains resolve_exposure sort is_active until_revoked
confirm-IsAdmitted_example =
    confirm-IsAdmitted ext wire sign first_byte lookup "sock" elevated asked signed "files" "wipe"
      "operator" 5 5 drawn 70 elevated_slot true wire-IsFaithful identity refl
      (λ m. (refl, refl, omega arith)) refl refl refl (record { sized = refl; bytes = omega arith })
      refl (omega arith) (omega arith) refl supervised (Memᴰ.head refl) refl (omega arith)
