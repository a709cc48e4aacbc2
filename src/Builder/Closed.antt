-- ===== src/Builder/Closed.antt =====
-- Every edge of the graph joins two of its nodes.
use rdb_memory_mcp.Base.{
  ℕ, ◌≡◌, refl, Bool, Option, none, some, List, map, Str, codes, gather, sort_by, All, All-append,
  All-map, All-imp, All-sort_by, All-gather,
}
use rdb_memory_mcp.Key.{ObjectKey, ObjectKind, display_key}
use rdb_memory_mcp.Snapshot.Objects.{
  ConstraintObject, ConstraintKind, IndexObject, ViewObject, TriggerObject, RoutineObject,
}
use rdb_memory_mcp.Snapshot.Normalize.{key_after}
use rdb_memory_mcp.Validation.Checks.{Objects}
use rdb_memory_mcp.Validation.Primitive.{RefersTo, Refers, IsColumnOf}
use rdb_memory_mcp.Validation.Spec.{
  IsValidConstraint, IsValidIndex, IsValidView, IsValidTrigger, IsValidRoutine, FitsKind, Executes,
  HasTarget,
}
use rdb_memory_mcp.Graph.Store.{GraphEdgeRecord}
use rdb_memory_mcp.Builder.Nodes.{Serialization}
use rdb_memory_mcp.Builder.Edges.{
  edge, column_edge_type, sorted_keys, target_edges, constraint_edges, index_edges, dependency_edge,
  view_dependency_type, view_edges, executes_edge, trigger_edges, routine_dependency_type,
  routine_edges,
}
use rdb_memory_mcp.Builder.Known.{Known}

-- Both ends are keys of nodes, in the snapshot.
abbrev pub Joins : Str → (Str → Type 0) → GraphEdgeRecord → Type 0
Joins key K e = K e.edge_from × K e.edge_to × (e.snapshot_key ≡ key)

module _ (serialization : Serialization) (decimal : ℕ → Str) (key : Str) (K : Str → Type 0) where
  -- One edge for each item, in sorted order.
  pub joined_map {ℓ κ} :
      {A : Type ℓ} (V : A → Type κ) (f : A → GraphEdgeRecord) (after : A → A → Bool)
      → ((x : A) → V x → Joins key K (f x))
      → (xs : List A) → All V xs
      → All (Joins key K) (map f (sort_by after xs))
  joined_map V f after each xs h =
      All-map (Joins key K) f (sort_by after xs)
        (All-imp each (sort_by after xs) (All-sort_by after V xs h))

  -- Some edges for each item.
  pub joined_gather {ℓ κ} :
      {A : Type ℓ} (V : A → Type κ) (f : A → List GraphEdgeRecord) (after : A → A → Bool)
      → ((x : A) → V x → All (Joins key K) (f x))
      → (xs : List A) → All V xs
      → All (Joins key K) (gather f (sort_by after xs))
  joined_gather V f after each xs h =
      All-gather (Joins key K) f (sort_by after xs)
        (All-imp each (sort_by after xs) (All-sort_by after V xs h))

  module _ (o : Objects) (known : Known K o) where
    pub referred :
        (target : ObjectKey) (kinds : List ObjectKind)
        → RefersTo o target kinds
        → K (display_key target)
    referred target kinds h = known (display_key target) h.0 h.1

    columns_known :
        (tbl : ObjectKey) (cols : List ObjectKey)
        → All (λ c. IsColumnOf o tbl c) cols
        → All (λ c. K (display_key c)) cols
    columns_known tbl cols = All-imp (λ c h. referred c _ h.registered) cols

    -- The edges from an object to its columns, or back.
    from_columns :
        (edge_type : Str) (owner : ObjectKey) (cols : List ObjectKey)
        → K (display_key owner)
        → All (λ c. K (display_key c)) cols
        → All
            (Joins key K)
            (map (λ c. edge serialization decimal key edge_type c owner) (sorted_keys cols))
    from_columns edge_type owner cols k h =
        joined_map (λ c. K (display_key c)) _ (key_after (λ c. c)) (λ c p. (p, k, refl)) cols h

    joined_targets :
        (kind : ConstraintKind) (x : ConstraintObject)
        → K (display_key x.key)
        → FitsKind kind x o
        → All (Joins key K) (target_edges serialization decimal key x kind)
    joined_targets ConstraintKind.primary_key x k h = tt
    joined_targets ConstraintKind.unique x k h = tt
    joined_targets ConstraintKind.check x k h = tt
    joined_targets ConstraintKind.foreign_key x k h =
        joined_map (λ c. K (display_key c)) _ (key_after (λ c. c)) (λ c p. (k, p, refl))
          x.referenced_columns (targets x.referenced_table_key h.1)
      where
        targets :
            (tbl : Option ObjectKey)
            → HasTarget tbl x.referenced_columns o
            → All (λ c. K (display_key c)) x.referenced_columns
        targets none t = absurd t
        targets (some tbl) t = columns_known tbl x.referenced_columns t.1

    pub joined_constraint :
        (alias : Str) (x : ConstraintObject)
        → K (display_key x.key) × IsValidConstraint alias x o
        → All (Joins key K) (constraint_edges serialization decimal key x)
    unfolding constraint_edges
    joined_constraint alias x (k, v) = (
      (referred x.table_key _ v.owner, k, refl),
      All-append (Joins key K) _ _
          (from_columns (column_edge_type x.kind) x.key x.columns k
            (columns_known x.table_key x.columns v.own_columns))
          (joined_targets x.kind x k v.fits_kind),
    )

    pub joined_index :
        (alias : Str) (x : IndexObject)
        → K (display_key x.key) × IsValidIndex alias x o
        → All (Joins key K) (index_edges serialization decimal key x)
    unfolding index_edges
    joined_index alias x (k, v) = (
      (referred x.table_key _ v.owner, k, refl),
      from_columns (codes "COLUMN_IN_INDEX") x.key x.columns k
          (columns_known x.table_key x.columns v.own_columns),
    )

    joined_dependency :
        (owner d : ObjectKey) (edge_type : Option Str)
        → K (display_key owner)
        → Refers o d
        → All (Joins key K) (dependency_edge serialization decimal key owner d edge_type)
    joined_dependency owner d none k h = tt
    joined_dependency owner d (some t) k h = ((k, known (display_key d) h.0 h.1, refl), tt)

    pub joined_view :
        (alias : Str) (x : ViewObject)
        → K (display_key x.key) × IsValidView alias x o
        → All (Joins key K) (view_edges serialization decimal key x)
    unfolding view_edges
    joined_view alias x (k, v) = (
      (referred x.schema_key _ v.owner, k, refl),
      joined_gather (λ d. Refers o d) _ (key_after (λ d. d))
          (λ d h. joined_dependency x.key d (view_dependency_type d.object_kind) k h) x.depends_on
          v.resolved,
    )

    pub joined_routine :
        (alias : Str) (x : RoutineObject)
        → K (display_key x.key) × IsValidRoutine alias x o
        → All (Joins key K) (routine_edges serialization decimal key x)
    unfolding routine_edges
    joined_routine alias x (k, v) = (
      (referred x.schema_key _ v.owner, k, refl),
      joined_gather (λ d. Refers o d) _ (key_after (λ d. d))
          (λ d h. joined_dependency x.key d (routine_dependency_type d.object_kind) k h)
          x.depends_on v.resolved,
    )

    joined-Executes :
        (k : ObjectKey) (routine : Option ObjectKey)
        → K (display_key k)
        → Executes routine o
        → All (Joins key K) (executes_edge serialization decimal key k routine)
    joined-Executes k none p h = tt
    joined-Executes k (some r) p h = ((p, referred r _ h, refl), tt)

    pub joined_trigger :
        (alias : Str) (x : TriggerObject)
        → K (display_key x.key) × IsValidTrigger alias x o
        → All (Joins key K) (trigger_edges serialization decimal key x)
    unfolding trigger_edges
    joined_trigger alias x (k, v) = (
      (referred x.table_key _ v.owner, k, refl),
      (
        (k, referred x.table_key _ v.owner, refl),
        joined-Executes x.key x.executes_routine_key k v.executes,
      ),
    )
