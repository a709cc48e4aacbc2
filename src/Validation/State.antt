-- ===== src/Validation/State.antt =====
-- `SnapshotValidator` and its methods. A method that changes `self` is a function on the state.
use rdb_memory_mcp.Base.{
  ℕ, Bool, true, false, not, ◌||◌, Option, none, some, List, [], ◌∷◌, ◌++◌, Str, codes, str_eq,
  is_blank, byte_length, get, insert, values, member, ltb, if◌then◌else◌,
}
use rdb_memory_mcp.Key.{ObjectKey, ObjectKind, display_kind, display_key}

pub record SnapshotValidationIssue : Type 0 where
  pub code : Str
  pub object_key : Str
  pub message : Str

pub record SnapshotValidator : Type 0 where
  pub objects : List (Str × ObjectKey)
  pub issues : List SnapshotValidationIssue

-- A check, or a row of checks, with its effect on the validator.
abbrev pub Check : Type 0
Check = SnapshotValidator → SnapshotValidator

-- One check, then another.
infixr 40 ◌⨾◌
abbrev pub ◌⨾◌ : Check → Check → Check
◌⨾◌ f g v = g (f v)

-- `for item in items { … }`.
unfoldable pub each {ℓ} : {A : Type ℓ} → (A → Check) → List A → Check
each f [] v = v
each f (x ∷ xs) v = each f xs (f x v)

abbrev pub max_metadata_text_bytes : ℕ
max_metadata_text_bytes = 1048576

-- `validator.issue(code, key, message)`.
unfoldable pub issue : Str → ObjectKey → Str → Check
issue code key message v =
    let entry : SnapshotValidationIssue = record {
      code = code;
      object_key = display_key key;
      message = message;
    } in
    record v { issues = v.issues ++ entry ∷ [] }

-- `if test { validator.issue(code, key, message) }`.
unfoldable pub issue_if : Bool → Str → ObjectKey → Str → Check
unfolding issue
issue_if test code key message v = if test then issue code key message v else v

pub ObjectKind-discrete : Discrete ObjectKind
ObjectKind-discrete = hlevel

unfoldable pub kind_eq : ObjectKind → ObjectKind → Bool
unfolding ObjectKind-discrete
kind_eq a b = elim (ObjectKind-discrete a b) [ yes _ ↦ true | no _ ↦ false ]

abbrev pub opt_eq : Option Str → Option Str → Bool
opt_eq none none = true
opt_eq (some a) (some b) = str_eq a b
opt_eq _ _ = false

-- `if self.objects.insert(stable_key, key.clone()).is_some() { … }`.
unfoldable pub insert_object : ObjectKey → Check
insert_object key v =
    let added : SnapshotValidator = record v { objects = insert (display_key key) key v.objects } in
    elim (get (display_key key) v.objects) [
      | none ↦ added
      | some _ ↦
          issue (codes "duplicate_object_key") key (codes "stable object key is duplicated") added
    ]

-- `register`.
unfoldable pub register : ObjectKind → ObjectKey → Check
register expected key =
    issue_if (not (kind_eq key.object_kind expected)) (codes "object_kind_mismatch") key (
      codes "object kind is "
      ++ (display_kind key.object_kind ++ (codes ", expected " ++ display_kind expected)))
    ⨾ insert_object key

-- `validate_identity`.
unfoldable pub validate_identity : ObjectKey → Str → Str → Option Str → Check
validate_identity key connection_alias object_name sub_object =
    issue_if (not (str_eq key.connection_alias connection_alias))
      (codes "connection_alias_mismatch") key
      (codes "object connection alias differs from the snapshot alias")
    ⨾ issue_if (not (str_eq key.object_name object_name) || not (opt_eq key.sub_object sub_object))
        (codes "object_identity_mismatch") key
        (codes "stable object identity differs from the object payload")

-- The body of the loop of `validate_registered_scope`.
unfoldable pub validate_scope_of : Str → ObjectKey → ObjectKey → Check
validate_scope_of connection_alias db key =
    issue_if (not (str_eq key.connection_alias connection_alias))
      (codes "connection_alias_mismatch") key
      (codes "object connection alias differs from the snapshot alias")
    ⨾ issue_if
        (is_blank key.source_kind
          || (is_blank key.database || (is_blank key.schema || is_blank key.object_name)))
        (codes "object_identity_incomplete") key
        (codes "stable object identity contains an empty required component")
    ⨾ issue_if
        (not (str_eq key.source_kind db.source_kind) || not (str_eq key.database db.database))
        (codes "object_source_scope_mismatch") key
        (codes "object source and database scope differ from the snapshot database identity")

-- `validate_registered_scope`: the keys are copied before the loop.
unfoldable pub validate_registered_scope : Str → ObjectKey → Check
validate_registered_scope connection_alias db v =
    each (validate_scope_of connection_alias db) (values v.objects) v

abbrev missing_target : ObjectKey → Str
missing_target target =
    codes "relationship target " ++ (display_key target ++ codes " is not present in the snapshot")

-- A match on `self.objects.get(&target.to_string())`.
abbrev pub with_object : ObjectKey → (ObjectKey → Check) → Check → Check
with_object target found missing v = elim (get (display_key target) v.objects) [
  | some actual ↦ found actual v
  | none ↦ missing v
]

-- `require_any`.
unfoldable pub require_any : ObjectKey → ObjectKey → Check
require_any owner target =
    with_object target (λ _ v. v)
      (issue (codes "relationship_target_missing") owner (missing_target target))

-- The kinds with ", " between them.
comma_list : List ObjectKind → Str
comma_list [] = []
comma_list (k ∷ []) = display_kind k
comma_list (k ∷ j ∷ ks) = display_kind k ++ (codes ", " ++ comma_list (j ∷ ks))

-- `require_one_of`.
unfoldable pub require_one_of : ObjectKey → List ObjectKind → ObjectKey → Check
unfolding comma_list
require_one_of target kinds owner =
    with_object target
      (λ actual.
        issue_if (not (member kind_eq actual.object_kind kinds))
          (codes "relationship_target_kind_mismatch") owner
          (codes "relationship target "
            ++ (display_key target
                ++ (codes " has kind "
                    ++ (display_kind actual.object_kind
                        ++ (codes ", expected one of " ++ comma_list kinds))))))
      (issue (codes "relationship_target_missing") owner (missing_target target))

-- `require_kind`.
abbrev pub require_kind : ObjectKey → ObjectKind → ObjectKey → Check
require_kind target kind owner = require_one_of target (kind ∷ []) owner

-- `require_child_of`.
unfoldable pub require_child_of : ObjectKey → ObjectKey → ObjectKey → Check
require_child_of child parent owner =
    issue_if
      (not (str_eq child.database parent.database) || not (str_eq child.schema parent.schema))
      (codes "object_scope_mismatch") owner
      (codes "child "
        ++ (display_key child
            ++ (codes " and parent " ++ (display_key parent ++ codes " have different scopes"))))

-- `require_column_of`.
unfoldable pub require_column_of : ObjectKey → ObjectKey → ObjectKey → Check
require_column_of tbl owner col =
    require_kind col ObjectKind.column owner
    ⨾ issue_if
        (not (str_eq col.database tbl.database)
          || (not (str_eq col.schema tbl.schema) || not (str_eq col.object_name tbl.object_name)))
        (codes "column_owner_mismatch") owner
        (codes "column "
          ++ (display_key col ++ (codes " does not belong to table " ++ display_key tbl)))

-- `validate_bounded_text`.
abbrev exceeds_limit : Option Str → Bool
exceeds_limit none = false
exceeds_limit (some value) = ltb max_metadata_text_bytes (byte_length value)

unfoldable pub validate_bounded_text : ObjectKey → Option Str → Str → Check
validate_bounded_text key value code =
    issue_if (exceeds_limit value) code key (codes "metadata text exceeds the canonical size limit")
