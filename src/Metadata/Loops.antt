-- ===== src/Metadata/Loops.antt =====
-- The loops of the metadata validation: each pushes no issue exactly if its items are valid one by
-- one and pairwise different.
use rdb_memory_mcp.Base.{
  is_some, ℕ, ◌≡◌, ◌≢◌, refl, ◌↔◌, true, false, not, ◌&&◌, ◌⊎◌, inl, inr, Option, none, some, List,
  [], ◌∷◌, map, Str, str_eq, str_eq_iff, get, insert, is_empty, member, has_duplicate,
  has_duplicate-false, All, Distinct, report_iff, report-nil, both_nil, iff_trans, or_split,
  is_some-none, arith,
}
use rdb_memory_mcp.Key.{ObjectKey, display_key}
use rdb_memory_mcp.Snapshot.Objects.{SchemaSnapshot}
use rdb_memory_mcp.Snapshot.Canonical.{MetadataObject, MetadataRelationship, ObjectAnnotation}
use rdb_memory_mcp.Snapshot.Equality.{equal_iff, MetadataRelationshipKind-discrete}
use rdb_memory_mcp.Validation.Registry.{get-insert-none}
use rdb_memory_mcp.Metadata.Run.{
  Keys, Identity, identity_of, identity_eq, ordinal_eq, object_issues, validate_annotations,
  validate_relationships,
}
use rdb_memory_mcp.Metadata.Spec.{
  IsMetadataObject, IsAnnotation, IsRelationship, object_keys, annotation_keys,
}
use rdb_memory_mcp.Metadata.Correct.{
  require_key_iff, validate_definition_iff, validate_properties_iff, metadata_object_iff,
  validate_relationship_endpoint_kinds_iff, is_zero_iff, bad_extension_iff,
}

ordinal_eq_iff : (a b : Option ℕ) → (ordinal_eq a b ≡ true) ↔ (a ≡ b)
ordinal_eq_iff none none = ground arith
ordinal_eq_iff none (some b) = ground arith
ordinal_eq_iff (some a) none = ground arith
ordinal_eq_iff (some a) (some b) = ground arith

pub identity_eq_iff : (a b : Identity) → (identity_eq a b ≡ true) ↔ (a ≡ b)
identity_eq_iff (k, f, t, o) (k', f', t', o') = ground (
  arith,
  equal_iff MetadataRelationshipKind-discrete k k',
  str_eq_iff f f',
  str_eq_iff t t',
  ordinal_eq_iff o o',
)

says_iff {ℓ} :
    {A : Type ℓ} (definition : Option Str) (properties : List A)
    → ((not (is_some definition) && is_empty properties) ≡ false)
      ↔ ((definition ≢ none) ⊎ (properties ≢ []))
says_iff none [] = (
  λ h. absurd (ground (arith, h)),
  λ h. elim h [ inl n ↦ absurd (n refl) | inr n ↦ absurd (n refl) ],
)
says_iff none (x ∷ xs) = (λ _. inr not-nil, λ _. refl)
  where
    not-nil : x ∷ xs ≢ []
    not-nil h = cc
says_iff (some t) xs = (λ _. inl not-none, λ _. refl)
  where
    not-none : some t ≢ none
    not-none h = cc

annotations_scan :
    (keys : Keys) (annotated : List Str) (annotations : List ObjectAnnotation)
    → (validate_annotations keys annotated annotations ≡ []) ↔ (
        All (λ a. IsAnnotation keys a) annotations
        × (has_duplicate str_eq annotated (annotation_keys annotations) ≡ false))
unfolding validate_annotations has_duplicate
annotations_scan keys annotated [] = (λ _. (tt, refl), λ _. refl)
annotations_scan keys annotated (a ∷ rest) =
    iff_trans
      (both_nil (require_key_iff keys a.object_key _) (
        both_nil (report-nil (member str_eq (display_key a.object_key) annotated) _) (
          both_nil (report_iff _ _ (says_iff a.definition a.properties)) (
            both_nil (validate_definition_iff _ a.definition) (
              both_nil (validate_properties_iff _ a.properties)
                (annotations_scan keys (display_key a.object_key ∷ annotated) rest))))))
      (
        λ (present, (fresh, (says, (definition, (properties, (others, distinct)))))). (
          (
            record {
              present = present;
              says = says;
              definition = definition;
              properties = properties;
            },
            others,
          ),
          (or_split _ _).1 (fresh, distinct),
        ),
        λ ((p, others), scan).
            let (fresh, distinct) =
              (or_split (member str_eq (display_key a.object_key) annotated) _).0 scan in
            (p.present, (fresh, (p.says, (p.definition, (p.properties, (others, distinct)))))),
      )

relationships_scan :
    (keys : Keys) (met : List Identity) (relationships : List MetadataRelationship)
    → (validate_relationships keys met relationships ≡ []) ↔ (
        All (λ r. IsRelationship keys r) relationships
        × (has_duplicate identity_eq met (map identity_of relationships) ≡ false))
unfolding validate_relationships has_duplicate
relationships_scan keys met [] = (λ _. (tt, refl), λ _. refl)
relationships_scan keys met (r ∷ rest) =
    iff_trans
      (both_nil (require_key_iff keys r.from_key _) (
        both_nil (require_key_iff keys r.to_key _) (
          both_nil (validate_relationship_endpoint_kinds_iff keys r _) (
            both_nil (report_iff _ _ (is_zero_iff r.ordinal)) (
              both_nil (report_iff _ _ (bad_extension_iff r.kind)) (
                both_nil (report-nil (member identity_eq (identity_of r) met) _) (
                  both_nil (validate_properties_iff _ r.properties)
                    (relationships_scan keys (identity_of r ∷ met) rest))))))))
      (
        λ (from, (to, (fits, (one, (named, (fresh, (properties, (others, distinct)))))))). (
          (
            record {
              has_from = from;
              has_to = to;
              fits = fits;
              from_one = one;
              named = named;
              properties = properties;
            },
            others,
          ),
          (or_split _ _).1 (fresh, distinct),
        ),
        λ ((p, others), scan).
            let (fresh, distinct) = (or_split (member identity_eq (identity_of r) met) _).0 scan in
            (
              p.has_from,
              (
                p.has_to,
                (p.fits, (p.from_one, (p.named, (fresh, (p.properties, (others, distinct)))))),
              ),
            ),
      )

pub validate_annotations_iff :
    (keys : Keys) (annotations : List ObjectAnnotation)
    → (validate_annotations keys [] annotations ≡ [])
      ↔ (All (λ a. IsAnnotation keys a) annotations × Distinct (annotation_keys annotations))
validate_annotations_iff keys annotations =
    let distinct = has_duplicate-false str_eq str_eq_iff (annotation_keys annotations) in
    let (there, back) = annotations_scan keys [] annotations in
    (λ h. let (valid, scan) = there h in (valid, distinct.0 scan), λ h. back (h.0, distinct.1 h.1))

pub validate_relationships_iff :
    (keys : Keys) (relationships : List MetadataRelationship)
    → (validate_relationships keys [] relationships ≡ [])
      ↔ (All (λ r. IsRelationship keys r) relationships × Distinct (map identity_of relationships))
validate_relationships_iff keys relationships =
    let distinct =
      has_duplicate-false identity_eq identity_eq_iff (map identity_of relationships) in
    let (there, back) = relationships_scan keys [] relationships in
    (λ h. let (valid, scan) = there h in (valid, distinct.0 scan), λ h. back (h.0, distinct.1 h.1))

-- A key is free in the map.
abbrev IsFree : Keys → Str → Type 0
IsFree keys k = get k keys ≡ none

All-IsFree-insert :
    (key : ObjectKey) (ks : List Str) (keys : Keys)
    → All (IsFree (insert (display_key key) key keys)) ks
      ↔ (All (λ k. display_key key ≢ k) ks × All (IsFree keys) ks)
All-IsFree-insert key [] keys = (λ _. (tt, tt), λ _. tt)
All-IsFree-insert key (k ∷ ks) keys =
    let (there, back) = get-insert-none (display_key key) k key keys in
    let (later, former) = All-IsFree-insert key ks keys in
    (
      λ h. let (a, b) = there h.0 in let (differ, free) = later h.1 in ((a, differ), (b, free)),
      λ h. (back (h.0.0, h.1.0), former (h.0.1, h.1.1)),
    )

pub object_issues_iff :
    (s : SchemaSnapshot) (keys : Keys) (objects : List MetadataObject)
    → (object_issues s keys objects ≡ []) ↔ (
        All (IsFree keys) (object_keys objects)
        × (Distinct (object_keys objects) × All (λ o. IsMetadataObject s o) objects))
unfolding object_issues
object_issues_iff s keys [] = (λ _. (tt, (tt, tt)), λ _. refl)
object_issues_iff s keys (o ∷ os) =
    let held = All-IsFree-insert o.key (object_keys os) keys in
    iff_trans
      (both_nil (report_iff _ _ (is_some-none (get (display_key o.key) keys))) (
        metadata_object_iff s o _ (object_issues_iff s (insert (display_key o.key) o.key keys) os)))
      (
        λ (free, (valid, (frees, (distinct, others)))).
            let (differ, before) = held.0 frees in
            ((free, before), ((differ, distinct), (valid, others))),
        λ ((free, before), ((differ, distinct), (valid, others))).
            (free, (valid, (held.1 (differ, before), (distinct, others)))),
      )
