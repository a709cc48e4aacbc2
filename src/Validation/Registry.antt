-- ===== src/Validation/Registry.antt =====
-- The registration phase: which keys it registers, under which texts, and when it finds a fault.
use Prim.Native.Nat.{Ordering}
use Prim.Native.Nat.Ordering.{lt, eq, gt}
use rdb_memory_mcp.Base.{
  ◌≡◌, refl, ◌↔◌, ◌≢◌, ◌⊎◌, not, none, some, List, [], ◌∷◌, ◌++◌, map, Str, str_eq_iff, get, insert,
  values, get-insert, All, All-of, Memᴰ, arith, ◌∙◌, ap, sym, subst, Option-cases, inl, inr,
  Distinct, str_cmp, eq_of_str_cmp,
}
use mathlib.Core.Option.{none-ne-some}
use rdb_memory_mcp.Key.{ObjectKey, ObjectKind, display_key}
use rdb_memory_mcp.Snapshot.Objects.{SchemaSnapshot}
use rdb_memory_mcp.Validation.State.{
  SnapshotValidator, Check, each, issue, issue_if, kind_eq, register, insert_object,
}
use rdb_memory_mcp.Validation.Checks.{Objects, Checks-issue_if, append-ne-nil}
use rdb_memory_mcp.Validation.Primitive.{kind_eq_iff}
use rdb_memory_mcp.Validation.Run.{register_objects, constraint_object_kind}

-- A key with the kind that its place in the snapshot asks for.
abbrev pub Entry : Type 0
Entry = ObjectKind × ObjectKey

-- Every object of the snapshot, in the order of registration.
abbrev pub entries : SchemaSnapshot → List Entry
entries s =
    (ObjectKind.database, s.database.key)
    ∷ (map (λ o. (ObjectKind.schema, o.key)) s.schemas
        ++ (map (λ o. (ObjectKind.table, o.key)) s.tables
            ++ (map (λ o. (ObjectKind.column, o.key)) s.columns
                ++ (map (λ o. (constraint_object_kind o.kind, o.key)) s.constraints
                    ++ (map (λ o. (ObjectKind.index, o.key)) s.indexes
                        ++ (map (λ o. (ObjectKind.view, o.key)) s.views
                            ++ (map (λ o. (ObjectKind.trigger, o.key)) s.triggers
                                ++ map (λ o. (ObjectKind.routine, o.key)) s.routines)))))))

abbrev register_entry : Entry → Check
register_entry e = register e.0 e.1

each-append {ℓ} :
    {A : Type ℓ} (f : A → Check) (xs ys : List A) (v : SnapshotValidator)
    → each f (xs ++ ys) v ≡ each f ys (each f xs v)
unfolding each
each-append f [] ys v = refl
each-append f (x ∷ xs) ys v = each-append f xs ys (f x v)

each-map {ℓ κ} :
    {A : Type ℓ} {B : Type κ} (f : B → Check) (g : A → B) (xs : List A) (v : SnapshotValidator)
    → each f (map g xs) v ≡ each (λ x. f (g x)) xs v
unfolding each
each-map f g [] v = refl
each-map f g (x ∷ xs) v = each-map f g xs (f (g x) v)

register_objects-each :
    (s : SchemaSnapshot) (v : SnapshotValidator)
    → register_objects s v ≡ each register_entry (entries s) v
unfolding register_objects each
register_objects-each s v = simp (each-append, each-map)

-- The registered objects, from those registered before.
unfoldable pub register_all : List Entry → Objects → Objects
register_all [] o = o
register_all (e ∷ es) o = register_all es (insert (display_key e.1) e.1 o)

module _ (key : ObjectKey) (v : SnapshotValidator) where
  insert_object_lem :
      ((insert_object key v).objects ≡ insert (display_key key) key v.objects)
      × (((insert_object key v).issues ≡ [])
          ↔ ((v.issues ≡ []) × (get (display_key key) v.objects ≡ none)))
  unfolding insert_object issue
  insert_object_lem = elim (Option-cases (get (display_key key) v.objects)) [
    | inl new ↦ rw (new, insert_object) (refl, (λ h. (h, refl), λ p. p.0))
    | inr (old, e) ↦
        rw (e, insert_object)
          (
            refl,
            (λ h. absurd (append-ne-nil v.issues _ h), λ p. absurd (none-ne-some old (sym p.1))),
          )
  ]

module _ (kind : ObjectKind) (key : ObjectKey) (v : SnapshotValidator) where
  register_lem :
      ((register kind key v).objects ≡ insert (display_key key) key v.objects)
      × (((register kind key v).issues ≡ [])
          ↔ ((v.issues ≡ []) × (key.object_kind ≡ kind) × (get (display_key key) v.objects ≡ none)))
  unfolding register
  register_lem =
      let first = Checks-issue_if (not (kind_eq key.object_kind kind)) _ key _ in
      let (objects, issues) = insert_object_lem key (issue_if _ _ _ _ v) in
      (
        objects ∙ ap (insert (display_key key) key) (first.same v),
        (
          λ h.
              let (before, new) = issues.0 h in
              let (clean, expected) = (first.exact v).0 before in
              (
                clean,
                (kind_eq_iff key.object_kind kind).0 (ground arith),
                subst (λ o. get (display_key key) o ≡ none) (first.same v) new,
              ),
          λ p. issues.1 (
            (first.exact v).1 (p.0, ground (arith, kind_eq_iff key.object_kind kind)),
            subst (λ o. get (display_key key) o ≡ none) (sym (first.same v)) p.2,
          ),
        ),
      )

-- The entry prints as a text that the map does not hold.
abbrev IsNew : Objects → Entry → Type 0
IsNew o e = get (display_key e.1) o ≡ none

abbrev pub IsExpected : Entry → Type 0
IsExpected e = e.1.object_kind ≡ e.0

abbrev pub stable_keys : List Entry → List Str
stable_keys [] = []
stable_keys (e ∷ es) = display_key e.1 ∷ stable_keys es

pub get-insert-none :
    (k j : Str) (v : ObjectKey) (o : Objects)
    → (get j (insert k v o) ≡ none) ↔ ((k ≢ j) × (get j o ≡ none))
get-insert-none k j v o = ground (arith, get-insert k j v o, str_eq_iff k j)

All-IsNew-insert :
    (e : Entry) (es : List Entry) (o : Objects)
    → All (IsNew (insert (display_key e.1) e.1 o)) es
      ↔ (All (λ t. display_key e.1 ≢ t) (stable_keys es) × All (IsNew o) es)
All-IsNew-insert e [] o = (λ _. (tt, tt), λ _. tt)
All-IsNew-insert e (x ∷ es) o =
    let (there, back) = get-insert-none (display_key e.1) (display_key x.1) e.1 o in
    let (there', back') = All-IsNew-insert e es o in
    (
      λ h.
          let (differ, new) = there h.0 in
          let (differ', new') = there' h.1 in ((differ, differ'), (new, new')),
      λ p. (back (p.0.0, p.1.0), back' (p.0.1, p.1.1)),
    )

-- Registering a row of entries finds no fault exactly if every kind is the expected one, no key
-- is registered already, and no two of the keys print alike.
each-register :
    (es : List Entry) (v : SnapshotValidator)
    → ((each register_entry es v).objects ≡ register_all es v.objects)
      × (((each register_entry es v).issues ≡ []) ↔ (
          (v.issues ≡ [])
          × All IsExpected es
          × All (IsNew v.objects) es
          × Distinct (stable_keys es)))
unfolding each register_all
each-register [] v = (refl, (λ h. (h, tt, tt, tt), λ p. p.0))
each-register (e ∷ es) v =
    let (objects, issues) = register_lem e.0 e.1 v in
    let (rest, faults) = each-register es (register e.0 e.1 v) in
    let (fresh, fresh') = All-IsNew-insert e es v.objects in
    (
      rest ∙ ap (register_all es) objects,
      (
        λ h.
            let (before, expected, new, distinct) = faults.0 h in
            let (clean, kind, first) = issues.0 before in
            let (differ, others) = fresh (subst (λ o. All (IsNew o) es) objects new) in
            (clean, (kind, expected), (first, others), (differ, distinct)),
        λ p.
            let new = fresh' (p.3.0, p.2.1) in
            faults.1 (
              issues.1 (p.0, p.1.0, p.2.0),
              p.1.1,
              subst (λ o. All (IsNew o) es) (sym objects) new,
              p.3.1,
            ),
      ),
    )

-- The map of registered objects that the checks read.
unfoldable pub registry : SchemaSnapshot → Objects
registry s = register_all (entries s) []

All-IsNew : (es : List Entry) → All (IsNew []) es
All-IsNew es = All-of (IsNew []) (λ _. unfold get in refl) es

-- The registration phase as a whole.
pub register_objects_lem :
    (s : SchemaSnapshot) (v : SnapshotValidator)
    → v.objects ≡ []
    → ((register_objects s v).objects ≡ registry s)
      × (((register_objects s v).issues ≡ [])
          ↔ ((v.issues ≡ []) × All IsExpected (entries s) × Distinct (stable_keys (entries s))))
unfolding registry
register_objects_lem s v empty =
    let (objects, faults) = each-register (entries s) v in
    rw (register_objects-each s v) (
      objects ∙ ap (register_all (entries s)) empty,
      (
        λ h. let (clean, expected, _, distinct) = faults.0 h in (clean, expected, distinct),
        λ p.
            let new = subst (λ o. All (IsNew o) (entries s)) (sym empty) (All-IsNew (entries s)) in
            faults.1 (p.0, p.1, new, p.2),
      ),
    )

get-insert-some :
    (k j : Str) (v w : ObjectKey) (o : Objects)
    → get j (insert k v o) ≡ some w
    → ((k ≡ j) × (v ≡ w)) ⊎ (get j o ≡ some w)
get-insert-some k j v w o h = ground (arith, get-insert k j v o, str_eq_iff k j)

get-register_all :
    (es : List Entry) (o : Objects) (t : Str) (k : ObjectKey)
    → get t (register_all es o) ≡ some k
    → ((e : Entry) × Memᴰ e es × (e.1 ≡ k) × (display_key k ≡ t)) ⊎ (get t o ≡ some k)
unfolding register_all
get-register_all [] o t k h = inr h
get-register_all (e ∷ es) o t k h =
    elim (get-register_all es (insert (display_key e.1) e.1 o) t k h) [
      | inl (e', m, same, prints) ↦ inl (e', Memᴰ.tail m, same, prints)
      | inr held ↦ elim (get-insert-some (display_key e.1) t e.1 k o held) [
        | inl (prints, same) ↦ inl (e, Memᴰ.head refl, same, ap display_key (sym same) ∙ prints)
        | inr old ↦ inr old
      ]
    ]

-- What the map holds under a text is the key of an object of the snapshot that prints as it.
pub get-registry :
    (s : SchemaSnapshot) (t : Str) (k : ObjectKey)
    → get t (registry s) ≡ some k
    → (e : Entry) × Memᴰ e (entries s) × (e.1 ≡ k) × (display_key k ≡ t)
unfolding registry get
get-registry s t k h = elim (get-register_all (entries s) [] t k h) [
  | inl found ↦ found
  | inr none_held ↦ absurd (none-ne-some k none_held)
]

get-head_none : (k j : Str) (w : ObjectKey) (o : Objects) → get k ((j, w) ∷ o) ≡ none → j ≢ k
unfolding get
get-head_none k j w o h = ground (arith, str_eq_iff j k)

get-tail_none :
    (k j : Str) (w : ObjectKey) (o : Objects) → get k ((j, w) ∷ o) ≡ none → get k o ≡ none
unfolding get
get-tail_none k j w o h = ground (arith, str_eq_iff j k)

ordering_cases : (c : Ordering) → (c ≡ lt) ⊎ (c ≡ eq) ⊎ (c ≡ gt)
ordering_cases lt = inl refl
ordering_cases eq = inr (inl refl)
ordering_cases gt = inr (inr refl)

values-insert {κ} :
    (P : ObjectKey → Type κ) (k : Str) (v : ObjectKey) (o : Objects)
    → get k o ≡ none
    → All P (values (insert k v o)) ↔ (P v × All P (values o))
unfolding values insert
values-insert P k v [] h = (λ p. p, λ p. p)
values-insert P k v ((j, w) ∷ o) h = elim (ordering_cases (str_cmp k j)) [
  | inl below ↦ rw (below, insert) (λ p. p, λ p. p)
  | inr (inl same) ↦ absurd (get-head_none k j w o h (sym (eq_of_str_cmp k j same)))
  | inr (inr above) ↦
      let (there, back) = values-insert P k v o (get-tail_none k j w o h) in
      rw (above, insert)
        (λ p. let (new, old) = there p.1 in (new, (p.0, old)), λ p. (p.1.0, back (p.0, p.1.1)))
]

values-register_all {κ} :
    (P : ObjectKey → Type κ) (es : List Entry) (o : Objects)
    → All (IsNew o) es
    → Distinct (stable_keys es)
    → All P (values (register_all es o)) ↔ (All (λ e. P e.1) es × All P (values o))
unfolding register_all
values-register_all P [] o n d = (λ p. (tt, p), λ p. p.1)
values-register_all P (e ∷ es) o n d =
    let later = (All-IsNew-insert e es o).1 (d.0, n.1) in
    let (there, back) = values-register_all P es (insert (display_key e.1) e.1 o) later d.1 in
    let (there', back') = values-insert P (display_key e.1) e.1 o n.0 in
    (
      λ h. let (rest, now) = there h in let (first, old) = there' now in ((first, rest), old),
      λ p. back (p.0.1, back' (p.0.0, p.1)),
    )

-- Without duplicates the map holds exactly the keys of the snapshot.
pub values-registry {κ} :
    (P : ObjectKey → Type κ) (s : SchemaSnapshot)
    → Distinct (stable_keys (entries s))
    → All P (values (registry s)) ↔ All (λ e. P e.1) (entries s)
unfolding registry values
values-registry P s d =
    let (there, back) = values-register_all P (entries s) [] (All-IsNew (entries s)) d in
    (λ h. (there h).0, λ h. back (h, tt))
