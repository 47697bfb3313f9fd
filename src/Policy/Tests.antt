-- ===== src/Policy/Tests.antt =====
-- Tests of the policy, and its theorems at concrete inputs.
use mcp_lock.Prelude.{String, ◌≡◌, refl, ◌↔◌, true, none, some, List, [], ◌∷◌, Memᴰ, ◌<◌, u64_max}
use mcp_lock.Prelude.Text.{sort}
use mcp_lock.Prelude.BTreeMap.{BTreeMap}
use mcp_lock.Manifest.{ToolClass, read, write, confirm}
use mcp_lock.Policy.Grant.{for_duration, is_active}
use mcp_lock.Policy.{running, classify, classify_advertised, resolve_exposure}
use mcp_lock.Policy.Expiry.{is_active-for_duration}
use mcp_lock.Policy.Exposure.{IsExposed, mem-resolve_exposure}

abbrev manifest_tools : BTreeMap ToolClass
manifest_tools = ("read_a", read) ∷ ("send_c", confirm) ∷ ("write_b", write) ∷ []

abbrev advertised : List String
advertised = "read_a" ∷ "write_b" ∷ "send_c" ∷ "undeclared_d" ∷ []

policy : Unit {0}
unfolding classify_advertised classify resolve_exposure sort is_active for_duration
policy = tt

read_only :
    resolve_exposure (classify_advertised manifest_tools advertised) running none 100
    ≡ "read_a" ∷ []
unfolding policy
read_only = refl

all_open :
    resolve_exposure
      (classify_advertised manifest_tools advertised)
      running
      (some (for_duration 100 60))
      120
    ≡ "read_a" ∷ "send_c" ∷ "undeclared_d" ∷ "write_b" ∷ []
unfolding policy
all_open = refl

at_expiry :
    resolve_exposure
      (classify_advertised manifest_tools advertised)
      running
      (some (for_duration 100 60))
      160
    ≡ "read_a" ∷ []
unfolding policy
at_expiry = refl

is_active-for_duration_example :
    (is_active (for_duration 100 60) 120 ≡ true) ↔ ((120 < 160) × (120 < u64_max))
is_active-for_duration_example = is_active-for_duration 100 60 120

mem-resolve_exposure_example :
    Memᴰ "send_c" (
      resolve_exposure
        (classify_advertised manifest_tools advertised)
        running
        (some (for_duration 100 60))
        120)
    ↔ IsExposed
        (classify_advertised manifest_tools advertised)
        running
        (some (for_duration 100 60))
        120
        "send_c"
mem-resolve_exposure_example =
    mem-resolve_exposure (classify_advertised manifest_tools advertised)
      (some (for_duration 100 60)) 120 "send_c" running
