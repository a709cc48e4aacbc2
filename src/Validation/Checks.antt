-- ===== src/Validation/Checks.antt =====
-- A check read as a predicate: it leaves the registered objects alone, and it adds no issue
-- exactly if the predicate holds of them.
use rdb_memory_mcp.Base.{
  ◌≡◌, refl, ◌↔◌, ◌≢◌, Bool, true, false, List, [], ◌∷◌, ◌++◌, Str, All, arith, ◌∙◌, subst, sym,
  Option, none, some, get,
}
use mathlib.Core.Option.{none-ne-some, some-injective}
use rdb_memory_mcp.Key.{ObjectKey, display_key}
use rdb_memory_mcp.Validation.State.{
  SnapshotValidator, Check, ◌⨾◌, each, issue, issue_if, with_object,
}

abbrev pub Objects : Type 0
Objects = List (Str × ObjectKey)

pub record Checks (f : Check) (P : Objects → Type 0) : Type 0 where
  pub same : (v : SnapshotValidator) → (f v).objects ≡ v.objects
  pub exact : (v : SnapshotValidator) → ((f v).issues ≡ []) ↔ ((v.issues ≡ []) × P v.objects)

pub append-ne-nil {ℓ} : {A : Type ℓ} (xs : List A) (y : A) → xs ++ y ∷ [] ≢ []
append-ne-nil [] y h = cc
append-ne-nil (x ∷ xs) y h = cc

pub Checks-issue_if :
    (test : Bool) (code : Str) (key : ObjectKey) (message : Str)
    → Checks (issue_if test code key message) (λ _. test ≡ false)
unfolding issue_if
Checks-issue_if true code key message = record {
  same = λ v. refl;
  exact = λ v. (λ h. absurd (append-ne-nil v.issues _ h), λ p. absurd (ground arith));
}
Checks-issue_if false code key message = record {
  same = λ v. refl;
  exact = λ v. (λ h. (h, refl), λ p. p.0);
}

pub Checks-issue :
    (code : Str) (key : ObjectKey) (message : Str) → Checks (issue code key message) (λ _. ⊥)
unfolding issue
Checks-issue code key message = record {
  same = λ v. refl;
  exact = λ v. (λ h. absurd (append-ne-nil v.issues _ h), λ p. absurd p.1);
}

-- A check that does nothing.
pub Checks-skip : Checks (λ v. v) (λ _. Unit)
Checks-skip = record { same = λ v. refl; exact = λ v. (λ h. (h, tt), λ p. p.0) }

pub Checks-then :
    {f g : Check} {P Q : Objects → Type 0}
    → Checks f P
    → Checks g Q
    → Checks (f ⨾ g) (λ o. P o × Q o)
Checks-then {f} {g} {P} {Q} c d = record {
  same = λ v. d.same (f v) ∙ c.same v;
  exact = λ v. (
    λ h.
        let (now, q) = (d.exact (f v)).0 h in
        let (before, p) = (c.exact v).0 now in (before, (p, subst Q (c.same v) q)),
    λ r. (d.exact (f v)).1 ((c.exact v).1 (r.0, r.1.0), subst Q (sym (c.same v)) r.1.1),
  );
}

pub Checks-iff :
    {f : Check} {P Q : Objects → Type 0} → Checks f P → ((o : Objects) → P o ↔ Q o) → Checks f Q
Checks-iff c e = record {
  same = c.same;
  exact = λ v. (
    λ h. let (before, p) = (c.exact v).0 h in (before, (e v.objects).0 p),
    λ r. (c.exact v).1 (r.0, (e v.objects).1 r.1),
  );
}

-- A loop checks every item.
pub Checks-each {ℓ} :
    {A : Type ℓ} (f : A → Check) (P : A → Objects → Type 0)
    → ((x : A) → Checks (f x) (P x))
    → (xs : List A) → Checks (each f xs) (λ o. All (λ x. P x o) xs)
unfolding each
Checks-each f P c [] = Checks-skip
Checks-each f P c (x ∷ xs) = Checks-then (c x) (Checks-each f P c xs)

-- A lookup that fails is an issue; one that succeeds is checked further.
pub Checks-with_object :
    (target : ObjectKey) (found : ObjectKey → Check) (missing : Check)
    (P : ObjectKey → Objects → Type 0)
    → ((a : ObjectKey) → Checks (found a) (P a))
    → Checks missing (λ _. ⊥)
    → Checks
        (with_object target found missing)
        (λ o. (a : ObjectKey) × (get (display_key target) o ≡ some a) × P a o)
Checks-with_object target found missing P c n = record {
  same = λ v. go_same v (get (display_key target) v.objects);
  exact = λ v. go_exact v (get (display_key target) v.objects) refl;
}
  where
    go_same :
        (v : SnapshotValidator) (r : Option ObjectKey)
        → (elim r as (λ _. SnapshotValidator) [ some a ↦ found a v | none ↦ missing v ]).objects
          ≡ v.objects
    go_same v none = n.same v
    go_same v (some a) = (c a).same v

    go_exact :
        (v : SnapshotValidator) (r : Option ObjectKey)
        → get (display_key target) v.objects ≡ r
        → ((elim r as (λ _. SnapshotValidator) [ some a ↦ found a v | none ↦ missing v ]).issues
            ≡ [])
          ↔ ((v.issues ≡ [])
              × ((a : ObjectKey) × (get (display_key target) v.objects ≡ some a) × P a v.objects))
    go_exact v none e =
        (λ h. absurd ((n.exact v).0 h).1, λ p. absurd (none-ne-some p.1.0 (sym e ∙ p.1.1)))
    go_exact v (some a) e = (
      λ h. let (before, p) = ((c a).exact v).0 h in (before, (a, e, p)),
      λ p.
          let same : p.1.0 ≡ a = some-injective p.1.0 a (sym p.1.1 ∙ e) in
          ((c a).exact v).1 (p.0, subst (λ x. P x v.objects) same p.1.2),
    )

-- A check after which there is no issue had none before, and its predicate holds.
pub Checks-sound :
    {f : Check} {P : Objects → Type 0} (c : Checks f P) (v : SnapshotValidator)
    → (f v).issues ≡ []
    → (v.issues ≡ []) × P v.objects
Checks-sound c v h = (c.exact v).0 h
