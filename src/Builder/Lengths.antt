-- ===== src/Builder/Lengths.antt =====
-- How many edges each object of a snapshot makes.
use rdb_memory_mcp.Graph.Store.{GraphEdgeRecord}
use rdb_memory_mcp.Base.{
  codes, ℕ, suc, ◌+◌, ◌≡◌, refl, true, false, Option, none, some, List, [], ◌∷◌, ◌++◌, Str, length,
  keep, is_some, All, sum_of, length-map, length-map_sorted, length-sort_by, sum_of-sort_by, gather,
  arith,
}
use rdb_memory_mcp.Key.{ObjectKey, ObjectKind}
use rdb_memory_mcp.Snapshot.Objects.{
  SchemaSnapshot, ConstraintObject, ConstraintKind, IndexObject, ViewObject, TriggerObject,
  RoutineObject,
}
use rdb_memory_mcp.Snapshot.Canonical.{MetadataObject}
use rdb_memory_mcp.Snapshot.Normalize.{key_after}
use rdb_memory_mcp.Certification.Counts.{
  foreign_key_pairs, constraint_columns, foreign_key_share, constraint_share,
}
use rdb_memory_mcp.Builder.Nodes.{Serialization}
use rdb_memory_mcp.Builder.Edges.{
  edge, column_edge_type, sorted_keys, constraint_edges, target_edges, index_edges, view_edges,
  trigger_edges, executes_edge, routine_edges, dependency_edge, view_dependency_type,
  routine_dependency_type, parent_edge,
}

-- A foreign key references as many columns as it has, as a validated one does.
abbrev pub PairsUp : ConstraintKind → ConstraintObject → Type 0
PairsUp ConstraintKind.foreign_key o = length o.columns ≡ length o.referenced_columns
PairsUp _ o = Unit

-- The dependencies for which no edge is inserted.
abbrev pub skipped_one : Option Str → ℕ
skipped_one none = 1
skipped_one (some _) = 0

abbrev pub skipped : (ObjectKind → Option Str) → List ObjectKey → ℕ
skipped type_of ds = sum_of (λ d. skipped_one (type_of d.object_kind)) ds

-- The dependencies of the snapshot that the graph leaves out.
abbrev pub left_out : SchemaSnapshot → ℕ
left_out s =
    sum_of (λ o. skipped view_dependency_type o.depends_on) s.views
    + sum_of (λ o. skipped routine_dependency_type o.depends_on) s.routines

module _ (serialization : Serialization) (decimal : ℕ → Str) (key : Str) where
  length-target_edges :
      (kind : ConstraintKind) (o : ConstraintObject)
      → PairsUp kind o
      → length (target_edges serialization decimal key o kind) + length o.columns
        ≡ constraint_share kind (length o.columns)
          + (foreign_key_share kind (length o.columns) + foreign_key_share kind (length o.columns))
  length-target_edges ConstraintKind.primary_key o h = omega arith
  length-target_edges ConstraintKind.unique o h = omega arith
  length-target_edges ConstraintKind.check o h = omega arith
  length-target_edges ConstraintKind.foreign_key o h = omega (
    arith,
    h,
    length-map {B = GraphEdgeRecord}
        (λ c. edge serialization decimal key (codes "FK_TO_COLUMN") o.key c)
        (sorted_keys o.referenced_columns),
    length-sort_by (key_after (λ c. c)) o.referenced_columns,
  )

  length-constraint_edges :
      (o : ConstraintObject)
      → PairsUp o.kind o
      → length (constraint_edges serialization decimal key o)
        ≡ 1 + (constraint_columns o + (foreign_key_pairs o + foreign_key_pairs o))
  unfolding constraint_edges
  length-constraint_edges o h = omega (
    arith,
    length-map_sorted {B = GraphEdgeRecord}
        (λ c. edge serialization decimal key (column_edge_type o.kind) c o.key) (key_after (λ c. c))
        o.columns (target_edges serialization decimal key o o.kind),
    length-target_edges o.kind o h,
  )

  length-dependencies :
      (owner : ObjectKey) (type_of : ObjectKind → Option Str) (ds : List ObjectKey)
      → length (
            gather
              (λ d. dependency_edge serialization decimal key owner d (type_of d.object_kind))
              ds)
          + skipped type_of ds
        ≡ length ds
  length-dependencies owner type_of [] = refl
  length-dependencies owner type_of (d ∷ ds) =
      go (type_of d.object_kind) (length-dependencies owner type_of ds)
    where
      go :
          (t : Option Str)
          → length (
                gather
                  (λ d. dependency_edge serialization decimal key owner d (type_of d.object_kind))
                  ds)
              + skipped type_of ds
            ≡ length ds
          → length (
                dependency_edge serialization decimal key owner d t
                ++ gather
                    (λ d. dependency_edge serialization decimal key owner d (type_of d.object_kind))
                    ds)
              + (skipped_one t + skipped type_of ds)
            ≡ suc (length ds)
      go none h = omega (arith, h)
      go (some t) h = omega (arith, h)

  pub length-constraints :
      (os : List ConstraintObject)
      → All (λ o. PairsUp o.kind o) os
      → sum_of (λ o. length (constraint_edges serialization decimal key o)) os
        ≡ length os
          + (sum_of constraint_columns os
              + (sum_of foreign_key_pairs os + sum_of foreign_key_pairs os))
  length-constraints [] h = refl
  length-constraints (o ∷ os) h =
      omega (arith, length-constraint_edges o h.0, length-constraints os h.1)

  pub length-indexes :
      (os : List IndexObject)
      → sum_of (λ o. length (index_edges serialization decimal key o)) os
        ≡ length os + sum_of (λ o. length o.columns) os
  unfolding index_edges
  length-indexes [] = refl
  length-indexes (o ∷ os) = omega (
    arith,
    length-map {B = GraphEdgeRecord}
        (λ c. edge serialization decimal key (codes "COLUMN_IN_INDEX") c o.key)
        (sorted_keys o.columns),
    length-sort_by (key_after (λ c. c)) o.columns,
    length-indexes os,
  )

  -- The edges of one owner and of its dependencies.
  pub length-views :
      (os : List ViewObject)
      → sum_of (λ o. length (view_edges serialization decimal key o)) os
          + sum_of (λ o. skipped view_dependency_type o.depends_on) os
        ≡ length os + sum_of (λ o. length o.depends_on) os
  unfolding view_edges
  length-views [] = refl
  length-views (o ∷ os) = omega (
    arith,
    length-dependencies o.key view_dependency_type (sorted_keys o.depends_on),
    sum_of-sort_by (key_after (λ c. c)) (λ d. skipped_one (view_dependency_type d.object_kind))
        o.depends_on,
    length-sort_by (key_after (λ c. c)) o.depends_on,
    length-views os,
  )

  pub length-routines :
      (os : List RoutineObject)
      → sum_of (λ o. length (routine_edges serialization decimal key o)) os
          + sum_of (λ o. skipped routine_dependency_type o.depends_on) os
        ≡ length os + sum_of (λ o. length o.depends_on) os
  unfolding routine_edges
  length-routines [] = refl
  length-routines (o ∷ os) = omega (
    arith,
    length-dependencies o.key routine_dependency_type (sorted_keys o.depends_on),
    sum_of-sort_by (key_after (λ c. c)) (λ d. skipped_one (routine_dependency_type d.object_kind))
        o.depends_on,
    length-sort_by (key_after (λ c. c)) o.depends_on,
    length-routines os,
  )

  -- Two edges for each trigger, and one more if it executes a routine.
  pub length-triggers :
      (os : List TriggerObject)
      → sum_of (λ o. length (trigger_edges serialization decimal key o)) os
        ≡ length os + (length os + length (keep (λ o. is_some o.executes_routine_key) os))
  unfolding trigger_edges
  length-triggers [] = refl
  length-triggers (o ∷ os) = go o.executes_routine_key (length-triggers os)
    where
      go :
          (routine : Option ObjectKey)
          → sum_of (λ o. length (trigger_edges serialization decimal key o)) os
            ≡ length os + (length os + length (keep (λ o. is_some o.executes_routine_key) os))
          → suc (suc (length (executes_edge serialization decimal key o.key routine)))
              + sum_of (λ o. length (trigger_edges serialization decimal key o)) os
            ≡ suc (length os)
              + (suc (length os)
                  + length (elim (is_some routine) [
                    | true ↦ o ∷ keep (λ o. is_some o.executes_routine_key) os
                    | false ↦ keep (λ o. is_some o.executes_routine_key) os
                  ]))
      go none h = omega (arith, h)
      go (some routine) h = omega (arith, h)

  pub length-parents :
      (os : List MetadataObject)
      → sum_of (λ o. length (parent_edge serialization decimal key o o.parent_key)) os
        ≡ length (keep (λ o. is_some o.parent_key) os)
  length-parents [] = refl
  length-parents (o ∷ os) = go o.parent_key (length-parents os)
    where
      go :
          (parent : Option ObjectKey)
          → sum_of (λ o. length (parent_edge serialization decimal key o o.parent_key)) os
            ≡ length (keep (λ o. is_some o.parent_key) os)
          → length (parent_edge serialization decimal key o parent)
              + sum_of (λ o. length (parent_edge serialization decimal key o o.parent_key)) os
            ≡ length (elim (is_some parent) [
              | true ↦ o ∷ keep (λ o. is_some o.parent_key) os
              | false ↦ keep (λ o. is_some o.parent_key) os
            ])
      go none h = omega (arith, h)
      go (some parent) h = omega (arith, h)
