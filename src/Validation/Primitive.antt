-- ===== src/Validation/Primitive.antt =====
-- The primitive checks of the validator, each with what it requires of the registered objects.
use rdb_memory_mcp.Base.{
  member-true, ◌≤◌, ◌≡◌, refl, ◌↔◌, true, false, Option, none, some, List, [], ◌∷◌, Str, str_eq,
  str_eq_iff, is_blank, byte_length, get, values, All, Memᴰ, arith, map, has_duplicate-false,
  Distinct,
}
use rdb_memory_mcp.Key.{ObjectKey, ObjectKind, display_key}
use rdb_memory_mcp.Validation.State.{
  SnapshotValidator, kind_eq, ObjectKind-discrete, opt_eq, validate_identity, validate_scope_of,
  validate_registered_scope, require_any, require_one_of, require_child_of, require_column_of,
  validate_bounded_text, max_metadata_text_bytes,
}
use rdb_memory_mcp.Validation.Checks.{
  Objects, Checks, Checks-issue_if, Checks-issue, Checks-skip, Checks-then, Checks-iff, Checks-each,
  Checks-with_object,
}
use rdb_memory_mcp.Validation.Run.{has_duplicate_keys, has_duplicate_strings}

pub kind_eq_iff : (a b : ObjectKind) → (kind_eq a b ≡ true) ↔ (a ≡ b)
unfolding kind_eq
kind_eq_iff a b =
    elim (ObjectKind-discrete a b)
      as (λ d. (elim d [ yes _ ↦ true | no _ ↦ false ] ≡ true) ↔ (a ≡ b)) [
        | yes e ↦ (λ _. e, λ _. refl)
        | no n ↦ (λ h. cc, λ e. absurd (n e))
      ]

opt_eq_iff : (a b : Option Str) → (opt_eq a b ≡ true) ↔ (a ≡ b)
opt_eq_iff none none = ground arith
opt_eq_iff none (some b) = ground arith
opt_eq_iff (some a) none = ground arith
opt_eq_iff (some a) (some b) = ground (arith, str_eq_iff a b)

-- The key's identity is the one that the object's payload gives.
pub record HasIdentity (key : ObjectKey) (alias name : Str) (sub : Option Str) : Type 0 where
  pub same_alias : key.connection_alias ≡ alias
  pub same_name : key.object_name ≡ name
  pub same_sub : key.sub_object ≡ sub

pub Checks-validate_identity :
    (key : ObjectKey) (alias name : Str) (sub : Option Str)
    → Checks (validate_identity key alias name sub) (λ _. HasIdentity key alias name sub)
unfolding validate_identity
Checks-validate_identity key alias name sub =
    Checks-iff (Checks-then (Checks-issue_if _ _ _ _) (Checks-issue_if _ _ _ _)) λ o. ground (
      arith,
      str_eq_iff key.connection_alias alias,
      str_eq_iff key.object_name name,
      opt_eq_iff key.sub_object sub,
    )

-- The target prints as the stable key of a registered object of one of the kinds.
abbrev pub RefersTo : Objects → ObjectKey → List ObjectKind → Type 0
RefersTo o target kinds =
    (actual : ObjectKey) × (get (display_key target) o ≡ some actual)
    × Memᴰ actual.object_kind kinds

pub Checks-require_one_of :
    (target : ObjectKey) (kinds : List ObjectKind) (owner : ObjectKey)
    → Checks (require_one_of target kinds owner) (λ o. RefersTo o target kinds)
unfolding require_one_of
Checks-require_one_of target kinds owner =
    Checks-with_object target _ _ (λ a _. Memᴰ a.object_kind kinds)
      (λ a.
        Checks-iff (Checks-issue_if _ _ _ _)
          λ _. ground (arith, member-true kind_eq kind_eq_iff a.object_kind kinds))
      (Checks-issue _ _ _)

abbrev pub Refers : Objects → ObjectKey → Type 0
Refers o target = (actual : ObjectKey) × (get (display_key target) o ≡ some actual)

pub Checks-require_any :
    (owner target : ObjectKey) → Checks (require_any owner target) (λ o. Refers o target)
unfolding require_any
Checks-require_any owner target =
    Checks-iff (Checks-with_object target _ _ (λ _ _. Unit) (λ _. Checks-skip) (Checks-issue _ _ _))
      λ _. (λ p. (p.0, p.1), λ p. (p.0, p.1, tt))

pub Checks-require_child_of :
    (child parent owner : ObjectKey)
    → Checks
        (require_child_of child parent owner)
        (λ _. (child.database ≡ parent.database) × (child.schema ≡ parent.schema))
unfolding require_child_of
Checks-require_child_of child parent owner = Checks-iff (Checks-issue_if _ _ _ _) λ _.
    ground (arith, str_eq_iff child.database parent.database, str_eq_iff child.schema parent.schema)

-- The key is that of a registered column of the table.
pub record IsColumnOf (o : Objects) (tbl col : ObjectKey) : Type 0 where
  pub registered : RefersTo o col (ObjectKind.column ∷ [])
  pub same_database : col.database ≡ tbl.database
  pub same_schema : col.schema ≡ tbl.schema
  pub same_table : col.object_name ≡ tbl.object_name

pub Checks-require_column_of :
    (tbl owner col : ObjectKey)
    → Checks (require_column_of tbl owner col) (λ o. IsColumnOf o tbl col)
unfolding require_column_of
Checks-require_column_of tbl owner col =
    let d = str_eq_iff col.database tbl.database in
    let s = str_eq_iff col.schema tbl.schema in
    let n = str_eq_iff col.object_name tbl.object_name in
    Checks-iff (Checks-then (Checks-require_one_of _ _ _) (Checks-issue_if _ _ _ _)) λ o. (
      λ p. record {
        registered = p.0;
        same_database = d.0 (ground arith);
        same_schema = s.0 (ground arith);
        same_table = n.0 (ground arith);
      },
      λ h. (h.registered, ground (arith, d, s, n)),
    )

abbrev pub FitsLimit : Option Str → Type 0
FitsLimit none = Unit
FitsLimit (some text) = byte_length text ≤ max_metadata_text_bytes

pub Checks-validate_bounded_text :
    (key : ObjectKey) (value : Option Str) (code : Str)
    → Checks (validate_bounded_text key value code) (λ _. FitsLimit value)
unfolding validate_bounded_text
Checks-validate_bounded_text key none code =
    Checks-iff (Checks-issue_if _ _ _ _) λ _. (λ _. tt, λ _. refl)
Checks-validate_bounded_text key (some text) code =
    Checks-iff (Checks-issue_if _ _ _ _) λ _. ground arith

abbrev pub DistinctKeys : List ObjectKey → Type 0
DistinctKeys keys = Distinct (map display_key keys)

pub has_duplicate_keys-false :
    (keys : List ObjectKey) → (has_duplicate_keys keys ≡ false) ↔ DistinctKeys keys
unfolding has_duplicate_keys
has_duplicate_keys-false keys = has_duplicate-false str_eq str_eq_iff (map display_key keys)

pub has_duplicate_strings-false :
    (texts : List Str) → (has_duplicate_strings texts ≡ false) ↔ Distinct texts
unfolding has_duplicate_strings
has_duplicate_strings-false texts = has_duplicate-false str_eq str_eq_iff texts

-- A registered key lies in the scope of the snapshot and has all its components.
pub record IsInScope (alias : Str) (db key : ObjectKey) : Type 0 where
  pub same_alias : key.connection_alias ≡ alias
  pub has_source : is_blank key.source_kind ≡ false
  pub has_database : is_blank key.database ≡ false
  pub has_schema : is_blank key.schema ≡ false
  pub has_name : is_blank key.object_name ≡ false
  pub same_source : key.source_kind ≡ db.source_kind
  pub same_database : key.database ≡ db.database

pub Checks-validate_scope_of :
    (alias : Str) (db key : ObjectKey)
    → Checks (validate_scope_of alias db key) (λ _. IsInScope alias db key)
unfolding validate_scope_of
Checks-validate_scope_of alias db key =
    let a = str_eq_iff key.connection_alias alias in
    let s = str_eq_iff key.source_kind db.source_kind in
    let d = str_eq_iff key.database db.database in
    Checks-iff
      (Checks-then (Checks-issue_if _ _ _ _)
        (Checks-then (Checks-issue_if _ _ _ _) (Checks-issue_if _ _ _ _)))
      λ _. ground (arith, a, s, d)

pub Checks-validate_registered_scope :
    (alias : Str) (db : ObjectKey)
    → Checks (validate_registered_scope alias db) (λ o. All (IsInScope alias db) (values o))
unfolding validate_registered_scope
Checks-validate_registered_scope alias db =
    let loop = λ (v : SnapshotValidator).
      Checks-each (validate_scope_of alias db) (λ key _. IsInScope alias db key)
        (Checks-validate_scope_of alias db) (values v.objects) in
    record { same = λ v. (loop v).same v; exact = λ v. (loop v).exact v }
