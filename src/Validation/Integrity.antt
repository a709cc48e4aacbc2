-- ===== src/Validation/Integrity.antt =====
-- References of a validated snapshot, read in its own tables.
use rdb_memory_mcp.Base.{
  ◌≡◌, refl, inl, inr, ◌∙◌, ap, sym, subst, Option, none, some, List, [], ◌∷◌, map, ◌++◌, All,
  All-imp, All-mem, Memᴰ, arith, ok, ◌≢◌,
}
use mathlib.Core.List.Memᴰ
use rdb_memory_mcp.Key.{ObjectKey, ObjectKind, display_key}
use rdb_memory_mcp.Snapshot.Objects.{
  SchemaSnapshot, SchemaObject, TableObject, ColumnObject, ConstraintObject, ConstraintKind,
  IndexObject, ViewObject, TriggerObject, RoutineObject,
}
use rdb_memory_mcp.Validation.Run.{validate_schema_snapshot, constraint_object_kind}
use rdb_memory_mcp.Validation.Primitive.{RefersTo}
use rdb_memory_mcp.Validation.Registry.{Entry, entries, registry, get-registry, IsExpected}
use rdb_memory_mcp.Validation.Spec.{IsValid, FitsKind, HasTarget}
use rdb_memory_mcp.Validation.Whole.{validate_schema_snapshot_iff}

-- The kind of an entry that comes from a row of objects.
kind_of_map {ℓ} :
    {A : Type ℓ} (kind : A → ObjectKind) (key : A → ObjectKey) (xs : List A) (e : Entry)
    → Memᴰ e (map (λ x. (kind x, key x)) xs)
    → (x : A) × Memᴰ x xs × (kind x ≡ e.0) × (key x ≡ e.1)
kind_of_map kind key xs e m =
    let (x, at, same) = Memᴰ.of_map _ xs m in (x, at, ap (λ p. p.0) same, ap (λ p. p.1) same)

not_table : (kind : ConstraintKind) → constraint_object_kind kind ≢ ObjectKind.table
not_table kind = ground arith

-- An entry of the kind table does not come from a row of another kind.
not_from {ℓ} :
    {A : Type ℓ} (kind : A → ObjectKind) (key : A → ObjectKey) (xs : List A) (e : Entry)
    → ((x : A) → kind x ≢ ObjectKind.table)
    → e.0 ≡ ObjectKind.table
    → ¬ Memᴰ e (map (λ x. (kind x, key x)) xs)
not_from kind key xs e other k m =
    let (x, _, same, _) = kind_of_map kind key xs e m in other x (same ∙ k)

past {ℓ} :
    {A : Type ℓ} (kind : A → ObjectKind) (key : A → ObjectKey) (xs : List A) (rest : List Entry)
    (e : Entry)
    → ((x : A) → kind x ≢ ObjectKind.table)
    → e.0 ≡ ObjectKind.table
    → Memᴰ e (map (λ x. (kind x, key x)) xs ++ rest)
    → Memᴰ e rest
past kind key xs rest e other k m = elim (Memᴰ.append_cases (map (λ x. (kind x, key x)) xs) m) [
  | inl here ↦ absurd (not_from kind key xs e other k here)
  | inr there ↦ there
]

-- An entry of the kind table is that of a table of the snapshot.
table_of_entry :
    (s : SchemaSnapshot) (e : Entry)
    → Memᴰ e (entries s)
    → e.0 ≡ ObjectKind.table
    → (t : TableObject) × Memᴰ t s.tables × (t.key ≡ e.1)
table_of_entry s e m k =
    let m₁ =
      past (λ (_ : Unit {0}). ObjectKind.database) (λ _. s.database.key) (tt ∷ []) _ e
        (λ _. ground arith) k m in
    let m₂ =
      past (λ (_ : SchemaObject). ObjectKind.schema) (λ o. o.key) s.schemas _ e (λ _. ground arith)
        k m₁ in
    elim (Memᴰ.append_cases (map (λ o. (ObjectKind.table, o.key)) s.tables) m₂) [
      | inl here ↦
          let (t, at, _, same) =
            kind_of_map (λ (_ : TableObject). ObjectKind.table) (λ o. o.key) s.tables e here in
          (t, at, same)
      | inr m₃ ↦
          let m₄ =
            past (λ (_ : ColumnObject). ObjectKind.column) (λ o. o.key) s.columns _ e
              (λ _. ground arith) k m₃ in
          let m₅ =
            past (λ (o : ConstraintObject). constraint_object_kind o.kind) (λ o. o.key)
              s.constraints _ e (λ o. not_table o.kind) k m₄ in
          let m₆ =
            past (λ (_ : IndexObject). ObjectKind.index) (λ o. o.key) s.indexes _ e
              (λ _. ground arith) k m₅ in
          let m₇ =
            past (λ (_ : ViewObject). ObjectKind.view) (λ o. o.key) s.views _ e (λ _. ground arith)
              k m₆ in
          let m₈ =
            past (λ (_ : TriggerObject). ObjectKind.trigger) (λ o. o.key) s.triggers _ e
              (λ _. ground arith) k m₇ in
          absurd (
            not_from (λ (_ : RoutineObject). ObjectKind.routine) (λ o. o.key) s.routines e
              (λ _. ground arith) k m₈)
    ]

-- The key prints as that of a table in the list.
abbrev pub IsTableOf : List TableObject → ObjectKey → Type 0
IsTableOf tables key = (t : TableObject) × Memᴰ t tables × (display_key t.key ≡ display_key key)

IsTableOf-reference :
    (s : SchemaSnapshot) (target : ObjectKey)
    → IsValid s
    → RefersTo (registry s) target (ObjectKind.table ∷ [])
    → IsTableOf s.tables target
IsTableOf-reference s target v (actual, held, kinds) =
    let (e, m, same, prints) = get-registry s (display_key target) actual held in
    let kind : e.0 ≡ ObjectKind.table =
      sym (All-mem IsExpected v.kinds m)
      ∙ (ap (λ k. k.object_kind) same ∙ Memᴰ.eq_of_singleton kinds) in
    let (t, at, key) = table_of_entry s e m kind in (t, at, ap display_key (key ∙ same) ∙ prints)

-- The table that a constraint references, if it is a foreign key.
abbrev pub TargetIsTable : List TableObject → ConstraintObject → Type 0
TargetIsTable tables c =
    c.kind ≡ ConstraintKind.foreign_key
    → (target : ObjectKey) × (c.referenced_table_key ≡ some target) × IsTableOf tables target

target_of_fk :
    (s : SchemaSnapshot) (c : ConstraintObject)
    → IsValid s
    → FitsKind c.kind c (registry s)
    → TargetIsTable s.tables c
target_of_fk s c v fits k =
    let fk : FitsKind ConstraintKind.foreign_key c (registry s) =
      subst (λ kind. FitsKind kind c (registry s)) k fits in
    go c.referenced_table_key refl fk.1
  where
    go :
        (key : Option ObjectKey)
        → c.referenced_table_key ≡ key
        → HasTarget key c.referenced_columns (registry s)
        → (target : ObjectKey) × (c.referenced_table_key ≡ some target) × IsTableOf s.tables target
    go none e h = absurd h
    go (some target) e h = (target, e, IsTableOf-reference s target v h.0)

-- In a snapshot that the validation accepts, the owner of every column, constraint and index, and
-- the target of every foreign key, is a table that the snapshot lists.
pub validate_schema_snapshot_references :
    (s : SchemaSnapshot)
    → validate_schema_snapshot s ≡ ok tt
    → All (λ c. IsTableOf s.tables c.table_key) s.columns
      × All (λ c. IsTableOf s.tables c.table_key × TargetIsTable s.tables c) s.constraints
      × All (λ i. IsTableOf s.tables i.table_key) s.indexes
validate_schema_snapshot_references s h =
    let v = (validate_schema_snapshot_iff s).0 h in
    (
      All-imp (λ c p. IsTableOf-reference s c.table_key v p.owner) s.columns
          v.objects.columns.each_column,
      All-imp (λ c p. (IsTableOf-reference s c.table_key v p.owner, target_of_fk s c v p.fits_kind))
          s.constraints v.objects.constraints,
      All-imp (λ i p. IsTableOf-reference s i.table_key v p.owner) s.indexes v.objects.indexes,
    )
