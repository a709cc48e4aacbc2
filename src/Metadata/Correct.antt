-- ===== src/Metadata/Correct.antt =====
-- Each check of the metadata pushes no issue exactly if its condition holds.
use rdb_memory_mcp.Base.{
  ℕ, ◌≡◌, ◌≢◌, refl, ◌↔◌, Bool, true, false, not, Option, none, some, List, [], ◌++◌, Str, is_blank,
  byte_length, get, length, report_iff, gather-nil, both_nil, iff_trans, any_iff, ltb_iff, or_iff,
  ne_iff, not_iff, same_iff, is_some_iff, bad_text_iff, arith,
}
use rdb_memory_mcp.Key.{ObjectKey, ObjectKind, display_key}
use rdb_memory_mcp.Snapshot.Objects.{SchemaSnapshot}
use rdb_memory_mcp.Snapshot.Canonical.{
  MetadataObject, MetadataValue, MetadataRelationship, MetadataRelationshipKind,
}
use rdb_memory_mcp.Validation.State.{kind_eq}
use rdb_memory_mcp.Validation.Primitive.{Refers}
use rdb_memory_mcp.Metadata.Kinds.{is_canonical_metadata_kind, expected_parents, one_of}
use rdb_memory_mcp.Metadata.Run.{
  Issues, Keys, value_too_large, valid_extension_name, extension_issues,
  validate_extension_identity, validate_definition, validate_property, validate_properties,
  require_key, require_same_scope, wrong_parent, require_metadata_parent_kind, parent_issues_of,
  misfit, validate_relationship_endpoint_kinds, is_zero, bad_extension,
}
use rdb_memory_mcp.Metadata.Spec.{
  IsName, FitsDefinition, FitsValue, FitsProperties, NamesExtension, IsMetadataObject, FitsParent,
  HasParent, FitsEnds, NamesRelation,
}

valid_extension_name_iff : (s : Str) → (not (valid_extension_name s) ≡ false) ↔ IsName s
unfolding valid_extension_name
valid_extension_name_iff s = (
  λ h. (ground (arith, h), ground (arith, h), ground (arith, h)),
  λ h. ground (arith, h.0, h.1, h.2),
)

extension_issues_iff :
    (is_ext : Bool) (name : Option Str) (subject : Str)
    → (extension_issues is_ext name subject ≡ []) ↔ NamesExtension is_ext name
unfolding extension_issues
extension_issues_iff true none subject = (λ h. absurd (not-nil h), λ h. absurd h)
  where
    not-nil : ¬ (extension_issues true none subject ≡ [])
    not-nil h = cc
extension_issues_iff true (some name) subject = report_iff _ _ (valid_extension_name_iff name)
extension_issues_iff false none subject = (λ _. tt, λ _. refl)
extension_issues_iff false (some name) subject = report_iff true _ never
  where
    never : (true ≡ false) ↔ ⊥
    never = (λ h. ground (arith, h), λ h. absurd h)

pub validate_definition_iff :
    (subject : Str) (definition : Option Str)
    → (validate_definition subject definition ≡ []) ↔ FitsDefinition definition
unfolding validate_definition
validate_definition_iff subject none = (λ _. tt, λ _. refl)
validate_definition_iff subject (some text) =
    report_iff _ _ (λ h. ground (arith, h), λ h. ground (arith, h))

value_iff : (v : MetadataValue) → (value_too_large v ≡ false) ↔ FitsValue v
value_iff (MetadataValue.string value) = ltb_iff 65536 (byte_length value)
value_iff (MetadataValue.string_list values) =
    or_iff _ _ (ltb_iff 4096 (length values))
      (any_iff _ (λ value. ltb_iff 65536 (byte_length value)) values)
value_iff _ = (λ _. tt, λ _. refl)

validate_property_iff :
    (subject : Str) (p : Str × MetadataValue)
    → (validate_property subject p ≡ []) ↔ (IsName p.0 × FitsValue p.1)
unfolding validate_property
validate_property_iff subject (name, value) =
    both_nil (report_iff _ _ (bad_text_iff 256 name)) (report_iff _ _ (value_iff value))

pub validate_properties_iff :
    (subject : Str) (properties : List (Str × MetadataValue))
    → (validate_properties subject properties ≡ []) ↔ FitsProperties properties
unfolding validate_properties
validate_properties_iff subject properties =
    both_nil (report_iff _ _ (ltb_iff 256 (length properties)))
      (gather-nil (validate_property subject) (validate_property_iff subject) properties)

validate_extension_identity_iff :
    (s : SchemaSnapshot) (o : MetadataObject)
    → (validate_extension_identity s o ≡ []) ↔ (
        (is_canonical_metadata_kind o.key.object_kind ≡ true)
        × (((o.key.source_kind ≡ s.database.key.source_kind)
              × (o.key.connection_alias ≡ s.connection_alias))
            × ((o.key.database ≡ s.database.key.database)
                × ((is_blank o.name ≡ false)
                    × NamesExtension
                        (kind_eq o.key.object_kind ObjectKind.extension)
                        o.extension_kind))))
unfolding validate_extension_identity
validate_extension_identity_iff s o = both_nil (report_iff _ _ (not_iff _)) (
    both_nil (report_iff _ _ (or_iff _ _ (ne_iff _ _) (ne_iff _ _))) (
      both_nil (report_iff _ _ (ne_iff _ _))
        (both_nil (report_iff _ _ (same_iff _)) (extension_issues_iff _ _ _))))

pub require_key_iff :
    (keys : Keys) (target : ObjectKey) (subject : Str)
    → (require_key keys target subject ≡ []) ↔ Refers keys target
unfolding require_key
require_key_iff keys target subject = report_iff _ _ (is_some_iff (get (display_key target) keys))

require_same_scope_iff :
    (child parent : ObjectKey) (subject : Str)
    → (require_same_scope child parent subject ≡ []) ↔ (
        (child.source_kind ≡ parent.source_kind)
        × ((child.connection_alias ≡ parent.connection_alias) × (child.database ≡ parent.database)))
unfolding require_same_scope
require_same_scope_iff child parent subject =
    report_iff _ _ (or_iff _ _ (ne_iff _ _) (or_iff _ _ (ne_iff _ _) (ne_iff _ _)))

wrong_parent_iff :
    (expected : Option (List ObjectKind)) (actual : Option ObjectKey)
    → (wrong_parent expected actual ≡ false) ↔ FitsParent expected actual
wrong_parent_iff (some kinds) (some actual) = not_iff (one_of kinds actual.object_kind)
wrong_parent_iff (some kinds) none = (λ _. tt, λ _. refl)
wrong_parent_iff none actual = (λ _. tt, λ _. refl)

pub parent_issues_iff :
    (keys : Keys) (o : MetadataObject) (parent_key : Option ObjectKey)
    → (parent_issues_of keys o parent_key ≡ []) ↔ HasParent keys o parent_key
unfolding parent_issues_of require_metadata_parent_kind
parent_issues_iff keys o none = (λ h. absurd (not-nil h), λ h. absurd h)
  where
    not-nil : ¬ (parent_issues_of keys o none ≡ [])
    not-nil h = cc
parent_issues_iff keys o (some parent) =
    iff_trans
      (both_nil (require_key_iff keys parent _)
        (both_nil (require_same_scope_iff o.key parent _) (kind_iff)))
      (
        λ (a, ((b, (c, d)), e)). record {
          present = a;
          same_source = b;
          same_alias = c;
          same_database = d;
          fits = e;
        },
        λ p. (p.present, ((p.same_source, (p.same_alias, p.same_database)), p.fits)),
      )
  where
    kind_iff :
        (require_metadata_parent_kind keys o.key.object_kind parent (display_key o.key) ≡ [])
        ↔ FitsParent (expected_parents o.key.object_kind) (get (display_key parent) keys)
    kind_iff = report_iff _ _ (wrong_parent_iff _ _)

misfit_iff :
    (kind : MetadataRelationshipKind) (from to : Option ObjectKey)
    → (misfit kind from to ≡ false) ↔ FitsEnds kind from to
misfit_iff kind (some from) (some to) = not_iff _
misfit_iff kind (some from) none = (λ _. tt, λ _. refl)
misfit_iff kind none to = (λ _. tt, λ _. refl)

pub validate_relationship_endpoint_kinds_iff :
    (keys : Keys) (r : MetadataRelationship) (subject : Str)
    → (validate_relationship_endpoint_kinds keys r subject ≡ [])
      ↔ FitsEnds r.kind (get (display_key r.from_key) keys) (get (display_key r.to_key) keys)
unfolding validate_relationship_endpoint_kinds
validate_relationship_endpoint_kinds_iff keys r subject = report_iff _ _ (misfit_iff _ _ _)

pub is_zero_iff : (ordinal : Option ℕ) → (is_zero ordinal ≡ false) ↔ (ordinal ≢ some 0)
is_zero_iff none = ground arith
is_zero_iff (some n) = ground arith

pub bad_extension_iff :
    (kind : MetadataRelationshipKind) → (bad_extension kind ≡ false) ↔ NamesRelation kind
bad_extension_iff (MetadataRelationshipKind.extension name) = valid_extension_name_iff name
bad_extension_iff _ = (λ _. tt, λ _. refl)

-- The checks of one object, before the issues of those behind it.
pub metadata_object_iff {κ} :
    {Q : Type κ} (s : SchemaSnapshot) (o : MetadataObject) (rest : Issues)
    → (rest ≡ []) ↔ Q
    → (validate_extension_identity s o
          ++ (validate_definition (display_key o.key) o.definition
              ++ (validate_properties (display_key o.key) o.properties ++ rest))
        ≡ [])
      ↔ (IsMetadataObject s o × Q)
metadata_object_iff s o rest q =
    iff_trans
      (both_nil (validate_extension_identity_iff s o) (
        both_nil (validate_definition_iff _ o.definition)
          (both_nil (validate_properties_iff _ o.properties) q)))
      (
        λ ((a, ((b, c), (d, (e, f)))), (g, (h, after))). (
          record {
            kind = a;
            same_source = b;
            same_alias = c;
            same_database = d;
            named = e;
            extension = f;
            definition = g;
            properties = h;
          },
          after,
        ),
        λ (p, after). (
          (p.kind, ((p.same_source, p.same_alias), (p.same_database, (p.named, p.extension)))),
          (p.definition, (p.properties, after)),
        ),
      )
