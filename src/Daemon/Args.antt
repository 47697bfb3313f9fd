-- ===== src/Daemon/Args.antt =====
-- crates/broker/src/main.rs: the arguments of the daemon.
use mcp_lock.Prelude.{String, List, [], ◌∷◌, ◌==◌, eq_string, if◌then◌else◌}
use mcp_lock.Prelude.Text.{◌+++◌}

-- What the arguments ask for. A usage error has the exit code 2.
pub data Command : Type 0 where
  version help posture : Command
  check_manifest serve : (path : String) → Command
  usage_error : (message : String) → Command

abbrev serve_args : List String → Command
serve_args (flag ∷ path ∷ rest) =
    if flag == "--manifest"
    then serve path
    else usage_error "mcp-lockd: usage: serve --manifest <path>"
serve_args (flag ∷ []) =
    if flag == "--manifest"
    then usage_error "mcp-lockd: serve --manifest requires a path"
    else usage_error "mcp-lockd: usage: serve --manifest <path>"
serve_args [] = usage_error "mcp-lockd: usage: serve --manifest <path>"

abbrev check_args : List String → Command
check_args [] = usage_error "mcp-lockd: --check-manifest requires a path"
check_args (path ∷ rest) = check_manifest path

-- The match of `main`.
unfoldable pub parse_command : List String → Command
parse_command [] = posture
parse_command (a ∷ args) =
    if a == "--version"
    then version
    else if a == "-V"
    then version
    else if a == "--help"
    then help
    else if a == "-h"
    then help
    else if a == "--check-manifest"
    then check_args args
    else if a == "serve"
    then serve_args args
    else usage_error ("mcp-lockd: unknown argument '" +++ (a +++ "'"))
