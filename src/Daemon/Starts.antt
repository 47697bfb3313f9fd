-- ===== src/Daemon/Starts.antt =====
-- When the daemon serves, and with what it starts.
use mcp_lock.Prelude.{String, ◌≡◌, ◌≢◌, refl, ◌↔◌, inl, inr, some, arith, All, Option-cases}
use text.Mathlib.TextEquality.{eq_iff}
use mcp_lock.Prelude.Bytes.{as_bytes}
use mcp_lock.Prelude.Results.{ok, Result-cases}
use mcp_lock.Prelude.Sync.{new_mutex}
use mcp_lock.Manifest.{LoadedManifest}
use mcp_lock.Policy.Grant.{Timestamp}
use mcp_lock.Auth.{StaticBearerValidator, new}
use mcp_lock.Aggregator.Data.{Aggregator}
use mcp_lock.Aggregator.Build.{build}
use mcp_lock.Aggregator.Ids.{IsRoutable, build-eq-ok_iff}
use mcp_lock.Daemon.{
  System, token_env, token_of, listen_env, listen_of, Served, load_from_path, load_registry,
  load_audit, start_control_channel, serve,
}

new-eq-some_iff :
    (token id : String) → ((v : StaticBearerValidator) × (new token id ≡ some v)) ↔ (token ≢ "")
unfolding new
new-eq-some_iff token id = (
  λ r e. ground (arith, eq_iff token "", r.1),
  λ h. (record { expected = as_bytes token; client_id = id }, ground (arith, eq_iff token "")),
)

module _ {Value Child Spawner Key File : Type 0} (sys : System Value Child Spawner Key File)
    (path : String) (spawner : Spawner) (now : Timestamp) where
  -- The four conditions of a start.
  pub record CanServe : Type 0 where
    pub loaded : LoadedManifest
    pub loads : load_from_path sys path ≡ ok loaded
    pub token : token_of (sys.var token_env) ≢ ""
    pub routable : All IsRoutable loaded.manifest.servers
    pub binds : sys.bind (listen_of (sys.var listen_env)) ≡ ok tt

  -- What runs, given what was loaded, made and built.
  abbrev served_with :
      StaticBearerValidator → Aggregator Value Child Spawner → Served Value Child Spawner Key File
  served_with v a = record {
    validator = v;
    aggregator = new_mutex a;
    audit = load_audit sys;
    control = start_control_channel sys (new_mutex a) (load_registry sys).0 (load_audit sys) now;
  }

  -- The steps of a start that succeeds.
  pub record Steps (s : Served Value Child Spawner Key File) : Type 0 where
    pub loaded : LoadedManifest
    pub loads : load_from_path sys path ≡ ok loaded
    pub validator : StaticBearerValidator
    pub made : new (token_of (sys.var token_env)) "mcp-client" ≡ some validator
    pub aggregator : Aggregator Value Child Spawner
    pub built : build sys.children loaded spawner ≡ ok aggregator
    pub binds : sys.bind (listen_of (sys.var listen_env)) ≡ ok tt
    pub result : s ≡ served_with validator aggregator

  pub serve-Steps :
      (s : Served Value Child Spawner Key File) → serve sys path spawner now ≡ ok s → Steps s
  unfolding serve
  serve-Steps s eq = elim (Result-cases (load_from_path sys path)) [
    | inr (e, bad) ↦ absurd (ground arith)
    | inl (loaded, loads) ↦ elim (Option-cases (new (token_of (sys.var token_env)) "mcp-client")) [
      | inl bad ↦ absurd (ground arith)
      | inr (v, made) ↦ elim (Result-cases (build sys.children loaded spawner)) [
        | inr (e, bad) ↦ absurd (ground arith)
        | inl (a, built) ↦ elim (Result-cases (sys.bind (listen_of (sys.var listen_env)))) [
          | inr (e, bad) ↦ absurd (ground arith)
          | inl (u, binds) ↦ record {
            loaded = loaded;
            loads = loads;
            validator = v;
            made = made;
            aggregator = a;
            built = built;
            binds = binds;
            result = ground arith;
          }
        ]
      ]
    ]
  ]

  Steps-serve :
      (s : Served Value Child Spawner Key File) → Steps s → serve sys path spawner now ≡ ok s
  unfolding serve
  Steps-serve s p = rw (p.loads, p.made, p.built, p.binds, p.result) refl

  pub serve-eq-ok_iff :
      ((s : Served Value Child Spawner Key File) × (serve sys path spawner now ≡ ok s)) ↔ CanServe
  serve-eq-ok_iff = (
    λ r.
        let p = serve-Steps r.0 r.1 in
        record {
          loaded = p.loaded;
          loads = p.loads;
          token = (new-eq-some_iff _ _).0 (p.validator, p.made);
          routable = (build-eq-ok_iff sys.children p.loaded spawner).0 (p.aggregator, p.built);
          binds = p.binds;
        },
    λ c.
        let (v, made) = (new-eq-some_iff (token_of (sys.var token_env)) "mcp-client").1 c.token in
        let (a, built) = (build-eq-ok_iff sys.children c.loaded spawner).1 c.routable in
        (
          served_with v a,
          Steps-serve _ (record {
            loaded = c.loaded;
            loads = c.loads;
            validator = v;
            made = made;
            aggregator = a;
            built = built;
            binds = c.binds;
            result = refl;
          }),
        ),
  )
