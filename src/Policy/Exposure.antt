-- ===== src/Policy/Exposure.antt =====
-- Which tools the gate exposes.
use mathlib.Core.List.Memᴰ as MemD
use mcp_lock.Prelude.{
  String, ◌≡◌, refl, ap, ◌∙◌, ◌↔◌, ◌⊎◌, Bool, true, false, Option, none, some, List, Memᴰ, arith,
}
use mcp_lock.Prelude.Search.{mem-retain, mem-retain_of}
use mcp_lock.Prelude.Text.{mem-sort, sort-IsSorted, IsSorted}
use mcp_lock.Prelude.BTreeMap.{BTreeMap, get}
use mcp_lock.Manifest.{ToolClass, read}
use mcp_lock.Policy.Grant.{Elevation, Timestamp}
use mcp_lock.Policy.{
  ClassifiedTool, ServerState, running, paused, stopped, is_elevated, is_open, resolve_exposure,
  classify, classify_advertised, or_write,
}

-- Why a name is exposed: the server runs, and a tool of that name is read-only or the elevation is
-- active.
pub record IsExposed (tools : List ClassifiedTool) (state : ServerState)
    (elevation : Option Elevation) (now : Timestamp) (name : String) : Type 0 where
  pub runs : state ≡ running
  pub tool : ClassifiedTool
  pub listed : Memᴰ tool tools
  pub named : tool.name ≡ name
  pub open_for : (tool.class ≡ read) ⊎ (is_elevated elevation now ≡ true)

is_open-cases : (b : Bool) (t : ClassifiedTool) → is_open b t ≡ true → (t.class ≡ read) ⊎ (b ≡ true)
is_open-cases b t h = ground arith

is_open_of : (b : Bool) (t : ClassifiedTool) → (t.class ≡ read) ⊎ (b ≡ true) → is_open b t ≡ true
is_open_of b t h = ground arith

module _ (tools : List ClassifiedTool) (elevation : Option Elevation) (now : Timestamp)
    (name : String) where
  to_exposed :
      (state : ServerState)
      → Memᴰ name (resolve_exposure tools state elevation now)
      → IsExposed tools state elevation now name
  unfolding resolve_exposure
  to_exposed running m =
      let (t, at, e) = MemD.of_map (λ t. t.name) _ ((mem-sort name _).0 m) in
      let (listed, passes) = mem-retain (is_open (is_elevated elevation now)) tools t at in
      record {
        runs = refl;
        tool = t;
        listed = listed;
        named = e;
        open_for = is_open-cases _ t passes;
      }
  to_exposed paused m = elim m [ ]
  to_exposed stopped m = elim m [ ]

  from_exposed :
      (state : ServerState)
      → IsExposed tools state elevation now name
      → Memᴰ name (resolve_exposure tools state elevation now)
  unfolding resolve_exposure
  from_exposed running x = (mem-sort name _).1 (
      MemD.cast (ground arith) (
        MemD.map (λ t. t.name)
          (mem-retain_of (is_open (is_elevated elevation now)) tools x.tool x.listed
            (is_open_of _ x.tool x.open_for))))
  from_exposed paused x = absurd (ground (arith, x.runs))
  from_exposed stopped x = absurd (ground (arith, x.runs))

  -- A name is exposed at a time exactly when the server runs and a tool of that name is declared
  -- read-only, or any tool of that name is there and the elevation is active at that time.
  pub mem-resolve_exposure :
      (state : ServerState)
      → Memᴰ name (resolve_exposure tools state elevation now)
        ↔ IsExposed tools state elevation now name
  mem-resolve_exposure state = (to_exposed state, from_exposed state)

-- The exposed names are in ascending order, as the source sorts them.
pub resolve_exposure-IsSorted :
    (tools : List ClassifiedTool) (state : ServerState) (elevation : Option Elevation)
    (now : Timestamp)
    → IsSorted (resolve_exposure tools state elevation now)
unfolding resolve_exposure
resolve_exposure-IsSorted tools running elevation now = sort-IsSorted _
resolve_exposure-IsSorted tools paused elevation now = tt
resolve_exposure-IsSorted tools stopped elevation now = tt

or_write-eq-read : (o : Option ToolClass) → or_write o ≡ read → o ≡ some read
or_write-eq-read none h = cc
or_write-eq-read (some c) h = cc

-- Without an active elevation, a name is exposed only if the child advertises it and the operator's
-- manifest declares it read-only: what the manifest does not list is never exposed.
pub default_deny :
    (manifest_tools : BTreeMap ToolClass) (advertised : List String) (state : ServerState)
    (elevation : Option Elevation) (now : Timestamp) (name : String)
    → is_elevated elevation now ≡ false
    → Memᴰ name
        (resolve_exposure (classify_advertised manifest_tools advertised) state elevation now)
    → (get name manifest_tools ≡ some read) × Memᴰ name advertised
unfolding classify_advertised
default_deny manifest_tools advertised state elevation now name idle m =
    let x = (mem-resolve_exposure _ elevation now name state).0 m in
    let (given, at, e) = MemD.of_map (classify manifest_tools) advertised x.listed in
    let same : given ≡ name = ap (λ t. t.name) e ∙ x.named in
    let class_read : x.tool.class ≡ read = ground arith in
    (rw (← same) (or_write-eq-read _ (ap (λ t. t.class) e ∙ class_read)), rw (← same) at)
