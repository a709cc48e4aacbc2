-- ===== src/Snapshot/Normalize/Laws.antt =====
-- Normalizing a second time changes nothing.
use Prim.Native.Nat.{compare, Ordering}
use Prim.Native.Nat.Ordering.{lt, eq, gt}
use rdb_memory_mcp.Base.{
  ℕ, ◌≡◌, refl, ap, ◌∙◌, true, false, Option, none, some, List, [], ◌∷◌, map, Str, str_cmp,
  reverse_cmp, str_cmp_reverse, str_eq, str_eq_iff, sort_by, sort_by-map, sort_by_idempotent,
  dedup-sort_by_idempotent, arith,
}
use rdb_memory_mcp.Key.{ObjectKey, display_key}
use rdb_memory_mcp.Snapshot.Canonical.{CanonicalSchemaSnapshot, MetadataRelationship}
use rdb_memory_mcp.Snapshot.Equality.{equal_iff, ObjectKey-discrete}
use rdb_memory_mcp.Snapshot.Normalize.{
  is_gt, str_after, key_after, sort_by_key, key_eq, canonical_keys, canonical_texts, variant_index,
  variant_name, then_cmp, ordinal_cmp, relationship_cmp, relationship_after, normalize_view,
  normalize_trigger, normalize_routine, normalize_canonical_snapshot,
}

pub is_gt_asym : (o p : Ordering) → p ≡ reverse_cmp o → is_gt o ≡ true → is_gt p ≡ false
is_gt_asym lt p e h = absurd (ground arith)
is_gt_asym eq p e h = absurd (ground arith)
is_gt_asym gt p e h = ap is_gt e

str_after_asym : (a b : Str) → str_after a b ≡ true → str_after b a ≡ false
unfolding str_after
str_after_asym a b = is_gt_asym (str_cmp a b) (str_cmp b a) (str_cmp_reverse a b)

key_after_asym {ℓ} :
    {A : Type ℓ} (key : A → ObjectKey) (a b : A)
    → key_after key a b ≡ true
    → key_after key b a ≡ false
unfolding key_after
key_after_asym key a b = str_after_asym (display_key (key a)) (display_key (key b))

compare_reverse : (a b : ℕ) → compare b a ≡ reverse_cmp (compare a b)
compare_reverse a b = ground arith

ordinal_cmp_reverse : (a b : Option ℕ) → ordinal_cmp b a ≡ reverse_cmp (ordinal_cmp a b)
ordinal_cmp_reverse none none = refl
ordinal_cmp_reverse none (some b) = refl
ordinal_cmp_reverse (some a) none = refl
ordinal_cmp_reverse (some a) (some b) = compare_reverse a b

pub then_cmp_reverse :
    (o p o' p' : Ordering)
    → o' ≡ reverse_cmp o
    → p' ≡ reverse_cmp p
    → then_cmp o' p' ≡ reverse_cmp (then_cmp o p)
then_cmp_reverse lt p o' p' e f = ap (λ r. then_cmp r p') e
then_cmp_reverse eq p o' p' e f = ap (λ r. then_cmp r p') e ∙ f
then_cmp_reverse gt p o' p' e f = ap (λ r. then_cmp r p') e

relationship_cmp_reverse :
    (a b : MetadataRelationship) → relationship_cmp b a ≡ reverse_cmp (relationship_cmp a b)
unfolding relationship_cmp
relationship_cmp_reverse a b =
    then_cmp_reverse _ _ _ _ (compare_reverse (variant_index a.kind) (variant_index b.kind)) (
      then_cmp_reverse _ _ _ _ (str_cmp_reverse (variant_name a.kind) (variant_name b.kind)) (
        then_cmp_reverse _ _ _ _ (str_cmp_reverse (display_key a.from_key) (display_key b.from_key))
          (then_cmp_reverse _ _ _ _ (str_cmp_reverse (display_key a.to_key) (display_key b.to_key))
            (ordinal_cmp_reverse a.ordinal b.ordinal))))

relationship_after_asym :
    (a b : MetadataRelationship) → relationship_after a b ≡ true → relationship_after b a ≡ false
unfolding relationship_after
relationship_after_asym a b =
    is_gt_asym (relationship_cmp a b) (relationship_cmp b a) (relationship_cmp_reverse a b)

sort_by_key_idempotent {ℓ} :
    {A : Type ℓ} (key : A → ObjectKey) (xs : List A)
    → sort_by_key key (sort_by_key key xs) ≡ sort_by_key key xs
sort_by_key_idempotent key = sort_by_idempotent (key_after key) (key_after_asym key)

canonical_keys_idempotent :
    (keys : List ObjectKey) → canonical_keys (canonical_keys keys) ≡ canonical_keys keys
canonical_keys_idempotent =
    dedup-sort_by_idempotent key_eq (equal_iff ObjectKey-discrete) (key_after (λ key. key))
      (key_after_asym (λ key. key))

pub canonical_texts_idempotent :
    (texts : List Str) → canonical_texts (canonical_texts texts) ≡ canonical_texts texts
canonical_texts_idempotent = dedup-sort_by_idempotent str_eq str_eq_iff str_after str_after_asym

map_idempotent {ℓ} :
    {A : Type ℓ} (f : A → A)
    → ((x : A) → f (f x) ≡ f x)
    → (xs : List A) → map f (map f xs) ≡ map f xs
map_idempotent f e [] = refl
map_idempotent f e (x ∷ xs) = λ i. e x i ∷ map_idempotent f e xs i

-- Sorting and then normalizing each item, where that keeps the key.
sort-map_idempotent {ℓ} :
    {A : Type ℓ} (key : A → ObjectKey) (f : A → A)
    → ((x : A) → f (f x) ≡ f x)
    → (λ a b. key_after key (f a) (f b)) ≡ key_after key
    → (xs : List A)
    → map f (sort_by_key key (map f (sort_by_key key xs))) ≡ map f (sort_by_key key xs)
sort-map_idempotent key f idem same xs =
    let sorted = sort_by_key key xs in
    ap (map f) (
      sort_by-map f (key_after key) sorted
      ∙ ap (λ after. map f (sort_by after sorted)) same
      ∙ ap (map f) (sort_by_key_idempotent key xs))
    ∙ map_idempotent f idem sorted

-- Normalizing is idempotent: a normalized snapshot is its own normal form.
pub normalize_canonical_snapshot_idempotent :
    (s : CanonicalSchemaSnapshot)
    → normalize_canonical_snapshot (normalize_canonical_snapshot s) ≡ normalize_canonical_snapshot s
unfolding normalize_canonical_snapshot key_after
normalize_canonical_snapshot_idempotent s = λ i. record {
  schema = record s.schema {
    schemas = sort_by_key_idempotent (λ x. x.key) s.schema.schemas i;
    tables = sort_by_key_idempotent (λ x. x.key) s.schema.tables i;
    columns = sort_by_key_idempotent (λ x. x.key) s.schema.columns i;
    constraints = sort_by_key_idempotent (λ x. x.key) s.schema.constraints i;
    indexes = sort_by_key_idempotent (λ x. x.key) s.schema.indexes i;
    views =
        sort-map_idempotent (λ x. x.key) normalize_view
          (λ x. λ j. record x { depends_on = canonical_keys_idempotent x.depends_on j }) refl
          s.schema.views i;
    triggers =
        sort-map_idempotent (λ x. x.key) normalize_trigger
          (λ x. λ j. record x { events = canonical_texts_idempotent x.events j }) refl
          s.schema.triggers i;
    routines =
        sort-map_idempotent (λ x. x.key) normalize_routine
          (λ x. λ j. record x { depends_on = canonical_keys_idempotent x.depends_on j }) refl
          s.schema.routines i;
    capabilities = record s.schema.capabilities {
      notes = canonical_texts_idempotent s.schema.capabilities.notes i;
      limitations = canonical_texts_idempotent s.schema.capabilities.limitations i;
    };
  };
  metadata = record {
    objects = sort_by_key_idempotent (λ x. x.key) s.metadata.objects i;
    annotations = sort_by_key_idempotent (λ x. x.object_key) s.metadata.annotations i;
    relationships =
        sort_by_idempotent relationship_after relationship_after_asym s.metadata.relationships i;
  };
}
