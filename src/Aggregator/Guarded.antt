-- ===== src/Aggregator/Guarded.antt =====
-- What every slot keeps, whatever is done to the aggregator short of a grant.
use mcp_lock.Prelude.{
  String, ◌≡◌, refl, inl, inr, none, some, List, [], ◌∷◌, ◌++◌, Memᴰ, arith, All, Bool-cases,
  Option-cases, ◌==◌, eq_string,
}
use text.Mathlib.TextEquality.{eq_iff}
use mcp_lock.Manifest.{ServerManifest, LoadedManifest}
use mcp_lock.Policy.{ServerState, classify_advertised}
use mcp_lock.Broker.{
  ServerSlot, BrokerState, set_state as set_slot_state, server, update_slot, server_mut,
}
use mcp_lock.Aggregator.Lifecycle.{if_server_mut, fault}

-- A slot without an elevation whose tools are what its child advertised, classified by an entry of
-- the manifest that has its id.
pub record IsGuarded (loaded : LoadedManifest) (slot : ServerSlot) : Type 0 where
  pub unelevated : slot.elevation ≡ none
  pub entry : ServerManifest
  pub declared : Memᴰ entry loaded.manifest.servers
  pub same_id : slot.id ≡ entry.id
  pub advertised : List String
  pub classified : slot.tools ≡ classify_advertised entry.tools advertised

abbrev pub Guarded : LoadedManifest → BrokerState → Type 0
Guarded loaded b = All (IsGuarded loaded) b.servers

All-update_slot :
    (loaded : LoadedManifest) (id : String) (f : ServerSlot → ServerSlot) (ss : List ServerSlot)
    → ((s : ServerSlot) → s.id ≡ id → IsGuarded loaded s → IsGuarded loaded (f s))
    → All (IsGuarded loaded) ss
    → All (IsGuarded loaded) (update_slot id f ss)
unfolding update_slot
All-update_slot loaded id f [] keeps h = tt
All-update_slot loaded id f (s ∷ ss) keeps h = elim (Bool-cases (s.id == id)) [
  | inl hit ↦ rw hit (keeps s ((eq_iff s.id id).0 hit) h.0, h.1)
  | inr miss ↦ rw miss (h.0, All-update_slot loaded id f ss keeps h.1)
]

pub Guarded-server_mut :
    (loaded : LoadedManifest) (b c : BrokerState) (id : String) (f : ServerSlot → ServerSlot)
    → ((s : ServerSlot) → s.id ≡ id → IsGuarded loaded s → IsGuarded loaded (f s))
    → Guarded loaded b
    → server_mut b id f ≡ some c
    → Guarded loaded c
unfolding server_mut
Guarded-server_mut loaded b c id f keeps h e = elim (Option-cases (server b id)) [
  | inl gone ↦ absurd (ground arith)
  | inr (s, found) ↦
      let same : c ≡ record { servers = update_slot id f b.servers } = ground arith in
      rw same (All-update_slot loaded id f b.servers keeps h)
]

pub Guarded-if_server_mut :
    (loaded : LoadedManifest) (b : BrokerState) (id : String) (f : ServerSlot → ServerSlot)
    → ((s : ServerSlot) → s.id ≡ id → IsGuarded loaded s → IsGuarded loaded (f s))
    → Guarded loaded b
    → Guarded loaded (if_server_mut b id f)
Guarded-if_server_mut loaded b id f keeps h = elim (Option-cases (server_mut b id f)) [
  | inl gone ↦ rw gone h
  | inr (c, done) ↦ rw done (Guarded-server_mut loaded b c id f keeps h done)
]

pub IsGuarded-set_state :
    (loaded : LoadedManifest) (state : ServerState) (s : ServerSlot)
    → IsGuarded loaded s
    → IsGuarded loaded (set_slot_state state s)
IsGuarded-set_state loaded state s g = record {
  unelevated = g.unelevated;
  entry = g.entry;
  declared = g.declared;
  same_id = g.same_id;
  advertised = g.advertised;
  classified = g.classified;
}

pub IsGuarded-fault :
    (loaded : LoadedManifest) (s : ServerSlot) → IsGuarded loaded s → IsGuarded loaded (fault s)
IsGuarded-fault loaded s g = record {
  unelevated = refl;
  entry = g.entry;
  declared = g.declared;
  same_id = g.same_id;
  advertised = g.advertised;
  classified = g.classified;
}

pub All-snoc :
    (loaded : LoadedManifest) (ss : List ServerSlot) (s : ServerSlot)
    → All (IsGuarded loaded) ss
    → IsGuarded loaded s
    → All (IsGuarded loaded) (ss ++ s ∷ [])
All-snoc loaded [] s h g = (g, tt)
All-snoc loaded (t ∷ ss) s h g = (h.0, All-snoc loaded ss s h.1 g)
