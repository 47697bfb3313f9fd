-- ===== src/Aggregator/Routes.antt =====
-- What is listed, and where its name leads.
use mathlib.Core.List.Memᴰ as MemD
use mcp_lock.Prelude.{
  String, ◌≡◌, refl, ap, sym, ◌∙◌, ◌↔◌, ◌⊎◌, inl, inr, none, some, List, [], ◌∷◌, Option-cases,
  Memᴰ,
}
use mcp_lock.Prelude.Search.{mem-append, mem-append_left, mem-append_right}
use mcp_lock.Prelude.BTreeMap.{BTreeMap, get, insert}
use mcp_lock.Prelude.Text.{◌+++◌}
use mcp_lock.Json.{JsonObjects}
use mcp_lock.Policy.Grant.{Timestamp}
use mcp_lock.Broker.{ServerSlot, exposed}
use mcp_lock.Aggregator.Data.{Aggregator}
use mcp_lock.Aggregator.Listing.{
  namespaced, set_name, with_name, listed_names, listed_slots, aggregated_tools,
}

module _ {Value : Type 0} (objects : JsonObjects Value) where
  -- The definition with this name: its object with the entry "name" set, or, where it is no object,
  -- the definition itself.
  abbrev pub IsRenamed : String → Value → Value → Type 0
  IsRenamed name d v =
      ((entries : BTreeMap Value) × (objects.as_object d ≡ some entries)
        × (v ≡ objects.of_object (insert "name" (objects.string name) entries)))
      ⊎ ((objects.as_object d ≡ none) × (v ≡ d))

  with_name-IsRenamed :
      (name : String) (d v : Value) → (v ≡ with_name objects name d) ↔ IsRenamed name d v
  with_name-IsRenamed name d v = elim (Option-cases (objects.as_object d)) [
    | inl plain ↦ (
      λ e. inr (plain, e ∙ ap (set_name objects name d) plain),
      λ r. elim r [
        | inl (es, is_object, e) ↦ absurd (cc (plain, is_object))
        | inr (p, e) ↦ e ∙ sym (ap (set_name objects name d) plain)
      ],
    )
    | inr (entries, is_object) ↦ (
      λ e. inl (entries, is_object, e ∙ ap (set_name objects name d) is_object),
      λ r. elim r [
        | inl (es, same, e) ↦ e ∙ sym (ap (set_name objects name d) same)
        | inr (p, e) ↦ absurd (cc (p, is_object))
      ],
    )
  ]

  -- Why a definition is in the listing of a slot.
  pub record IsListedAs (server_id : String) (defs : BTreeMap Value) (names : List String)
      (v : Value) : Type 0 where
    pub tool : String
    pub open_now : Memᴰ tool names
    pub definition : Value
    pub defined : get tool defs ≡ some definition
    pub renamed : IsRenamed (server_id +++ ("." +++ tool)) definition v

  from_names :
      (server_id : String) (defs : BTreeMap Value) (names : List String) (v : Value)
      → Memᴰ v (listed_names objects server_id defs names)
      → IsListedAs server_id defs names v
  unfolding listed_names
  from_names server_id defs [] v m = elim m [ ]
  from_names server_id defs (t ∷ names) v m = elim (Option-cases (get t defs)) [
    | inl gone ↦
        let r = from_names server_id defs names v (rw (gone, listed_names) at m) in
        record {
          tool = r.tool;
          open_now = Memᴰ.tail r.open_now;
          definition = r.definition;
          defined = r.defined;
          renamed = r.renamed;
        }
    | inr (d, has) ↦ elim (MemD.cases_cons (rw (has, listed_names) at m)) [
      | inl e ↦ record {
        tool = t;
        open_now = Memᴰ.head refl;
        definition = d;
        defined = has;
        renamed = (with_name-IsRenamed _ d v).0 e;
      }
      | inr rest ↦
          let r = from_names server_id defs names v rest in
          record {
            tool = r.tool;
            open_now = Memᴰ.tail r.open_now;
            definition = r.definition;
            defined = r.defined;
            renamed = r.renamed;
          }
    ]
  ]

  to_names :
      (server_id : String) (defs : BTreeMap Value) (names : List String) (v : Value) (tool : String)
      (d : Value)
      → Memᴰ tool names
      → get tool defs ≡ some d
      → v ≡ with_name objects (namespaced server_id tool) d
      → Memᴰ v (listed_names objects server_id defs names)
  unfolding listed_names
  to_names server_id defs [] v tool d m has e = elim m [ ]
  to_names server_id defs (t ∷ names) v tool d (Memᴰ.head same) has e =
      rw (← same, has, listed_names) (Memᴰ.head e)
  to_names server_id defs (t ∷ names) v tool d (Memᴰ.tail m) has e =
      elim (Option-cases (get t defs)) [
        | inl gone ↦ rw (gone, listed_names) (to_names server_id defs names v tool d m has e)
        | inr (d', has') ↦
            rw (has', listed_names) (Memᴰ.tail (to_names server_id defs names v tool d m has e))
      ]

  -- Why a definition is in the listing of an aggregator.
  pub record IsListed {Child Spawner : Type 0} (a : Aggregator Value Child Spawner)
      (now : Timestamp) (v : Value) : Type 0 where
    pub slot : ServerSlot
    pub at : Memᴰ slot a.state.servers
    pub defs : BTreeMap Value
    pub discovered : get slot.id a.tool_defs ≡ some defs
    pub listed : IsListedAs slot.id defs (exposed slot now) v

  from_slots :
      {Child Spawner : Type 0} (a : Aggregator Value Child Spawner) (now : Timestamp) (v : Value)
      (slots : List ServerSlot)
      → ((s : ServerSlot) → Memᴰ s slots → Memᴰ s a.state.servers)
      → Memᴰ v (listed_slots objects a.tool_defs now slots)
      → IsListed a now v
  unfolding listed_slots
  from_slots a now v [] among m = elim m [ ]
  from_slots a now v (s ∷ slots) among m = elim (Option-cases (get s.id a.tool_defs)) [
    | inl gone ↦
        from_slots a now v slots (λ t n. among t (Memᴰ.tail n)) (rw (gone, listed_slots) at m)
    | inr (defs, has) ↦ elim (mem-append _ _ v (rw (has, listed_slots) at m)) [
      | inl here ↦ record {
        slot = s;
        at = among s (Memᴰ.head refl);
        defs = defs;
        discovered = has;
        listed = from_names s.id defs (exposed s now) v here;
      }
      | inr there ↦ from_slots a now v slots (λ t n. among t (Memᴰ.tail n)) there
    ]
  ]

  to_slots :
      {Child Spawner : Type 0} (a : Aggregator Value Child Spawner) (now : Timestamp) (v : Value)
      (slots : List ServerSlot) (slot : ServerSlot) (defs : BTreeMap Value)
      → Memᴰ slot slots
      → get slot.id a.tool_defs ≡ some defs
      → Memᴰ v (listed_names objects slot.id defs (exposed slot now))
      → Memᴰ v (listed_slots objects a.tool_defs now slots)
  unfolding listed_slots
  to_slots a now v [] slot defs m has h = elim m [ ]
  to_slots a now v (s ∷ slots) slot defs (Memᴰ.head e) has h =
      rw (← e, has, listed_slots) (mem-append_left _ _ v h)
  to_slots a now v (s ∷ slots) slot defs (Memᴰ.tail m) has h =
      mem-append_right _ _ v (to_slots a now v slots slot defs m has h)

  -- A definition is listed exactly when it is the one that the aggregator keeps for a server's tool
  -- that the slot of the server exposes at this time, with its entry "name" set to the server's id, a
  -- dot and the tool's name; a definition that is no object is listed as it is.
  pub mem-aggregated_tools :
      {Child Spawner : Type 0} (a : Aggregator Value Child Spawner) (now : Timestamp) (v : Value)
      → Memᴰ v (aggregated_tools objects a now) ↔ IsListed a now v
  unfolding aggregated_tools
  mem-aggregated_tools a now v = (
    from_slots a now v a.state.servers (λ s m. m),
    λ l. to_slots a now v a.state.servers l.slot l.defs l.at l.discovered (
        to_names l.slot.id l.defs (exposed l.slot now) v l.listed.tool l.listed.definition
          l.listed.open_now l.listed.defined
          ((with_name-IsRenamed _ l.listed.definition v).1 l.listed.renamed)),
  )
