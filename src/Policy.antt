-- ===== src/Policy.antt =====
-- crates/core/src/policy.rs: classification and the exposure gate.
pub mod Mode
pub mod Grant
pub mod Expiry
pub mod Exposure
mod Tests
use mcp_lock.Prelude.{
  String, Bool, true, false, ◌||◌, Option, none, some, List, [], ◌∷◌, map, retain,
}
use mcp_lock.Prelude.Text.{sort}
use mcp_lock.Prelude.BTreeMap.{BTreeMap, get}
use mcp_lock.Manifest.{ToolClass, write, is_read}
use Grant.{Elevation, Timestamp, is_active}

pub record ClassifiedTool : Type 0 where
  pub name : String
  pub class : ToolClass

-- `unwrap_or(ToolClass::Write)`.
abbrev pub or_write : Option ToolClass → ToolClass
or_write none = write
or_write (some c) = c

unfoldable pub classify : BTreeMap ToolClass → String → ClassifiedTool
classify manifest_tools advertised_name = record {
  name = advertised_name;
  class = or_write (get advertised_name manifest_tools);
}

unfoldable pub classify_advertised : BTreeMap ToolClass → List String → List ClassifiedTool
unfolding classify
classify_advertised manifest_tools advertised = map (classify manifest_tools) advertised

pub data ServerState : Type 0 where
  running paused stopped : ServerState

-- `elevation.is_some_and(|e| e.is_active(now))`.
abbrev pub is_elevated : Option Elevation → Timestamp → Bool
is_elevated none now = false
is_elevated (some e) now = is_active e now

-- Which tools pass the filter.
abbrev pub is_open : Bool → ClassifiedTool → Bool
is_open elevated t = is_read t.class || elevated

abbrev pub tool_names : List ClassifiedTool → List String
tool_names = map λ t. t.name

unfoldable pub resolve_exposure :
    List ClassifiedTool → ServerState → Option Elevation → Timestamp → List String
resolve_exposure tools running elevation now =
    sort (tool_names (retain (is_open (is_elevated elevation now)) tools))
resolve_exposure tools _ elevation now = []
