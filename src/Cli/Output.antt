-- ===== src/Cli/Output.antt =====
-- crates/cli/src/main.rs: what a command prints, and its exit code.
use Prim.Native.Nat.{zero, suc}
use mcp_lock.Prelude.{ℕ, String, Bool, true, false, List, [], ◌∷◌, map}
use mcp_lock.Prelude.Decimal.{decimal}
use mcp_lock.Prelude.Text.{◌+++◌}
use mcp_lock.Control.Data.{ServerStatus, ControlResponse}

pub record Exit : Type 0 where
  pub code : ℕ
  pub out : List String
  pub errors : List String

abbrev pub printed : List String → Exit
printed lines = record { code = 0; out = lines; errors = [] }

abbrev pub fail : String → Exit
fail message = record { code = 1; out = []; errors = ("mcp-lock: " +++ message) ∷ [] }

abbrev pub usage_error : String → Exit
usage_error message = record {
  code = 2;
  out = [];
  errors = ("mcp-lock: " +++ message) ∷ "run `mcp-lock --help` for usage" ∷ [];
}

-- `{:<n}`: at least n characters.
unfoldable pub pad : ℕ → String → String
pad zero s = s
pad (suc n) String.[] = String.◌∷◌ " " (pad n "")
pad (suc n) (String.◌∷◌ c s) = String.◌∷◌ c (pad n s)

abbrev elevated_mark : Bool → String
elevated_mark true = " (elevated)"
elevated_mark false = ""

unfoldable pub status_line : ServerStatus → String
unfolding pad
status_line s =
    pad 16 s.id
    +++ (" "
        +++ (pad 8 s.state
            +++ (" "
                +++ (decimal s.exposed_tools
                    +++ (" tool(s) exposed" +++ elevated_mark s.elevated)))))

abbrev or_note : String → List String → List String
or_note note [] = note ∷ []
or_note note (l ∷ ls) = l ∷ ls

unfoldable pub print_response : ControlResponse → Exit
unfolding status_line
print_response (ControlResponse.status servers) =
    printed (or_note "(no servers)" (map status_line servers))
print_response (ControlResponse.list tools) = printed (or_note "(no tools exposed)" tools)
print_response (ControlResponse.logs entries) = printed entries
print_response (ControlResponse.nonce nonce) = fail "unexpected nonce response"
print_response (ControlResponse.done message) = printed (message ∷ [])
print_response (ControlResponse.error message) = fail message
