-- ===== src/Builder/Known.antt =====
-- Which texts are keys of nodes: `K` is a predicate that holds of the keys of all objects. Then it
-- holds of every text that one of the key maps of the validation knows.
use rdb_memory_mcp.Base.{
  ◌≡◌, refl, sym, ◌∙◌, All-map_append, subst, Bool, true, false, some, List, [], ◌∷◌, Str, get,
  insert, get-insert, str_eq, str_eq_iff, is_some, All, All-map, if◌then◌else◌,
}
use mathlib.Core.Option.{none-ne-some}
use rdb_memory_mcp.Key.{ObjectKey, display_key}
use rdb_memory_mcp.Snapshot.Objects.{SchemaSnapshot}
use rdb_memory_mcp.Snapshot.Canonical.{CanonicalSchemaSnapshot, MetadataObject}
use rdb_memory_mcp.Validation.Registry.{Entry, entries, registry, register_all}
use rdb_memory_mcp.Metadata.Spec.{keys_of}
use rdb_memory_mcp.Metadata.Run.{
  Keys, register_key, register_keys, base_keys, base_object_keys, all_keys,
}

-- The predicate holds of the keys of the schema's objects.
pub record Covers (K : Str → Type 0) (s : SchemaSnapshot) : Type 0 where
  pub database : K (display_key s.database.key)
  pub schemas : All (λ o. K (display_key o.key)) s.schemas
  pub tables : All (λ o. K (display_key o.key)) s.tables
  pub columns : All (λ o. K (display_key o.key)) s.columns
  pub constraints : All (λ o. K (display_key o.key)) s.constraints
  pub indexes : All (λ o. K (display_key o.key)) s.indexes
  pub views : All (λ o. K (display_key o.key)) s.views
  pub triggers : All (λ o. K (display_key o.key)) s.triggers
  pub routines : All (λ o. K (display_key o.key)) s.routines

module _ (K : Str → Type 0) where
  -- It holds of every text that the map knows.
  abbrev pub Known : Keys → Type 0
  Known m = (t : Str) (k : ObjectKey) → get t m ≡ some k → K t

  Known-insert :
      (key : ObjectKey) (m : Keys)
      → K (display_key key)
      → Known m
      → Known (insert (display_key key) key m)
  Known-insert key m p known t k h =
      go (str_eq (display_key key) t) refl (sym (get-insert (display_key key) t key m) ∙ h)
    where
      go :
          (b : Bool)
          → str_eq (display_key key) t ≡ b
          → (if b then some key else get t m) ≡ some k
          → K t
      go true e q = subst K ((str_eq_iff (display_key key) t).0 e) p
      go false e q = known t k q

  Known-empty : Known []
  unfolding get
  Known-empty t k h = absurd (none-ne-some k h)

  Known-register_all :
      (es : List Entry) (m : Keys)
      → All (λ e. K (display_key e.1)) es
      → Known m
      → Known (register_all es m)
  unfolding register_all
  Known-register_all [] m h known = known
  Known-register_all (e ∷ es) m h known =
      Known-register_all es (insert (display_key e.1) e.1 m) h.1 (Known-insert e.1 m h.0 known)

  Known-register_keys :
      (ks : List ObjectKey) (m : Keys)
      → All (λ k. K (display_key k)) ks
      → Known m
      → Known (register_keys m ks)
  unfolding register_keys register_key
  Known-register_keys [] m h known = known
  Known-register_keys (k ∷ ks) m h known =
      Known-register_keys ks (register_key m k) h.1
        (keep_or_insert (is_some (get (display_key k) m)))
    where
      keep_or_insert : (b : Bool) → Known (if b then m else insert (display_key k) k m)
      keep_or_insert true = known
      keep_or_insert false = Known-insert k m h.0 known

  Known-all_keys :
      (os : List MetadataObject) (m : Keys)
      → All (λ o. K (display_key o.key)) os
      → Known m
      → Known (all_keys m os)
  unfolding all_keys
  Known-all_keys [] m h known = known
  Known-all_keys (o ∷ os) m h known =
      Known-all_keys os (insert (display_key o.key) o.key m) h.1 (Known-insert o.key m h.0 known)

  module _ (s : SchemaSnapshot) (c : Covers K s) where
    abbrev IsKnown : Entry → Type 0
    IsKnown e = K (display_key e.1)

    abbrev IsKnownKey : ObjectKey → Type 0
    IsKnownKey k = K (display_key k)

    pub Known-registry : Known (registry s)
    unfolding registry
    Known-registry =
        Known-register_all (entries s) []
          (
            c.database,
            All-map_append IsKnown _ s.schemas _ c.schemas (
                All-map_append IsKnown _ s.tables _ c.tables (
                  All-map_append IsKnown _ s.columns _ c.columns (
                    All-map_append IsKnown _ s.constraints _ c.constraints (
                      All-map_append IsKnown _ s.indexes _ c.indexes (
                        All-map_append IsKnown _ s.views _ c.views (
                          All-map_append IsKnown _ s.triggers _ c.triggers
                            (All-map IsKnown _ s.routines c.routines))))))),
          )
          Known-empty

    Known-base_object_keys :
        (x : CanonicalSchemaSnapshot) → x.schema ≡ s → Known (base_object_keys x)
    unfolding base_object_keys
    Known-base_object_keys x e =
        subst (λ t. Known (register_keys [] (base_keys t))) (sym e)
          (Known-register_keys (base_keys s) []
            (
              c.database,
              All-map_append IsKnownKey _ s.schemas _ c.schemas (
                  All-map_append IsKnownKey _ s.tables _ c.tables (
                    All-map_append IsKnownKey _ s.columns _ c.columns (
                      All-map_append IsKnownKey _ s.constraints _ c.constraints (
                        All-map_append IsKnownKey _ s.indexes _ c.indexes (
                          All-map_append IsKnownKey _ s.views _ c.views (
                            All-map_append IsKnownKey _ s.triggers _ c.triggers
                              (All-map IsKnownKey _ s.routines c.routines))))))),
            )
            Known-empty)

  pub Known-keys_of :
      (x : CanonicalSchemaSnapshot)
      → Covers K x.schema
      → All (λ o. K (display_key o.key)) x.metadata.objects
      → Known (keys_of x)
  Known-keys_of x c h =
      Known-all_keys x.metadata.objects (base_object_keys x) h
        (Known-base_object_keys x.schema c x refl)
