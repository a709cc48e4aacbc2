-- ===== src/Validation/Sources.antt =====
-- The checks of views, triggers and routines are exact for their predicates.
use rdb_memory_mcp.Base.{◌≡◌, refl, Option, none, some, List, Str, All, arith}
use rdb_memory_mcp.Key.{ObjectKey}
use rdb_memory_mcp.Snapshot.Objects.{ViewObject, TriggerObject, RoutineObject}
use rdb_memory_mcp.Validation.State.{each, require_any}
use rdb_memory_mcp.Validation.Run.{check_view, check_executes, check_trigger, check_routine}
use rdb_memory_mcp.Validation.Checks.{
  Checks, Checks-issue_if, Checks-skip, Checks-then, Checks-iff, Checks-each,
}
use rdb_memory_mcp.Validation.Primitive.{
  Checks-validate_identity, Checks-require_one_of, Checks-require_any, Checks-require_child_of,
  Checks-validate_bounded_text, has_duplicate_keys-false, has_duplicate_strings-false, Refers,
}
use rdb_memory_mcp.Validation.Spec.{IsValidView, Executes, IsValidTrigger, IsValidRoutine}

Checks-resolved :
    (owner : ObjectKey) (keys : List ObjectKey)
    → Checks (each (require_any owner) keys) (λ o. All (λ d. Refers o d) keys)
Checks-resolved owner keys =
    Checks-each (require_any owner) (λ d o. Refers o d) (Checks-require_any owner) keys

pub Checks-check_view :
    (alias : Str) (x : ViewObject) → Checks (check_view alias x) (IsValidView alias x)
unfolding check_view
Checks-check_view alias x =
    let once = has_duplicate_keys-false x.depends_on in
    Checks-iff
      (Checks-then (Checks-require_one_of _ _ _) (
        Checks-then (Checks-validate_identity _ _ _ _) (
          Checks-then (Checks-resolved x.key x.depends_on)
            (Checks-then (Checks-issue_if _ _ _ _) (Checks-validate_bounded_text _ _ _)))))
      λ _. (
        λ (a, (b, (c, (d, e)))). record {
          owner = a;
          identity = b;
          resolved = c;
          distinct = once.0 d;
          bounded = e;
        },
        λ h. (h.owner, (h.identity, (h.resolved, (once.1 h.distinct, h.bounded)))),
      )

pub Checks-check_routine :
    (alias : Str) (x : RoutineObject) → Checks (check_routine alias x) (IsValidRoutine alias x)
unfolding check_routine
Checks-check_routine alias x =
    let once = has_duplicate_keys-false x.depends_on in
    Checks-iff
      (Checks-then (Checks-require_one_of _ _ _) (
        Checks-then (Checks-validate_identity _ _ _ _) (
          Checks-then (Checks-resolved x.key x.depends_on)
            (Checks-then (Checks-issue_if _ _ _ _) (Checks-validate_bounded_text _ _ _)))))
      λ _. (
        λ (a, (b, (c, (d, e)))). record {
          owner = a;
          identity = b;
          resolved = c;
          distinct = once.0 d;
          bounded = e;
        },
        λ h. (h.owner, (h.identity, (h.resolved, (once.1 h.distinct, h.bounded)))),
      )

Executes-step :
    (key : Option ObjectKey) (x : TriggerObject)
    → x.executes_routine_key ≡ key
    → Checks (check_executes x) (Executes key)
unfolding check_executes
Executes-step none x e = record {
  same = λ v. rw (e, check_executes) refl;
  exact = λ v. rw (e, check_executes) (Checks-skip.exact v);
}
Executes-step (some key) x e = record {
  same = λ v. rw (e, check_executes) ((Checks-require_one_of key _ x.key).same v);
  exact = λ v. rw (e, check_executes) ((Checks-require_one_of key _ x.key).exact v);
}

pub Checks-check_trigger :
    (alias : Str) (x : TriggerObject) → Checks (check_trigger alias x) (IsValidTrigger alias x)
unfolding check_trigger
Checks-check_trigger alias x =
    let once = has_duplicate_strings-false x.events in
    Checks-iff
      (Checks-then (Checks-require_one_of _ _ _) (
        Checks-then (Checks-require_child_of _ _ _) (
          Checks-then (Checks-validate_identity _ _ _ _) (
            Checks-then (Checks-issue_if _ _ _ _) (
              Checks-then (Checks-issue_if _ _ _ _) (
                Checks-then (Checks-validate_bounded_text _ _ _)
                  (Executes-step x.executes_routine_key x refl)))))))
      λ _. (
        λ (a, (b, (c, (d, (e, (f, g)))))). record {
          owner = a;
          scope = b;
          identity = c;
          has_event = ground (arith, d);
          distinct = once.0 e;
          bounded = f;
          executes = g;
        },
        λ h. (
          h.owner,
          (
            h.scope,
            (
              h.identity,
              (ground (arith, h.has_event), (once.1 h.distinct, (h.bounded, h.executes))),
            ),
          ),
        ),
      )
