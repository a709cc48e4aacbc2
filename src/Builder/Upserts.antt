-- ===== src/Builder/Upserts.antt =====
-- What a series of upserts leaves in a table, whose key is the snapshot and one more column.
use rdb_memory_mcp.Base.{
  ◌≡◌, refl, Bool, true, false, not, ◌&&◌, Bool-cases, inl, inr, List, [], ◌∷◌, Str, str_eq,
  str_eq_iff, keep, All, All-imp, arith,
}

-- The last row of a list, or what was found before it.
abbrev pub last_or {ℓ} : {A : Type ℓ} → List A → List A → List A
last_or found [] = found
last_or found (x ∷ xs) = last_or (x ∷ []) xs

module _ {A : Type 0} where
  -- A choice among what a wider choice kept.
  keep-inside :
      (p q : A → Bool) (xs : List A)
      → ((x : A) → p x ≡ true → q x ≡ true)
      → keep p (keep q xs) ≡ keep p xs
  keep-inside p q [] h = refl
  keep-inside p q (x ∷ xs) h = go (p x) (q x) refl (h x) (keep-inside p q xs h)
    where
      go :
          (a b : Bool)
          → p x ≡ a
          → (a ≡ true → b ≡ true)
          → keep p (keep q xs) ≡ keep p xs
          → keep p (elim b [ true ↦ x ∷ keep q xs | false ↦ keep q xs ])
            ≡ elim a [ true ↦ x ∷ keep p xs | false ↦ keep p xs ]
      go true true e f same = ground (arith, e, same)
      go true false e f same = absurd (ground (arith, f refl))
      go false true e f same = ground (arith, e, same)
      go false false e f same = same

  -- Nothing is chosen among what was left out.
  keep-outside :
      (p q : A → Bool) (xs : List A)
      → ((x : A) → p x ≡ true → q x ≡ false)
      → keep p (keep q xs) ≡ []
  keep-outside p q [] h = refl
  keep-outside p q (x ∷ xs) h = go (p x) (q x) refl (h x) (keep-outside p q xs h)
    where
      go :
          (a b : Bool)
          → p x ≡ a
          → (a ≡ true → b ≡ false)
          → keep p (keep q xs) ≡ []
          → keep p (elim b [ true ↦ x ∷ keep q xs | false ↦ keep q xs ]) ≡ []
      go true true e f none = absurd (ground (arith, f refl))
      go true false e f none = none
      go false true e f none = ground (arith, e, none)
      go false false e f none = none

  -- Choices that agree on the rows.
  pub keep-cong : (p q : A → Bool) (xs : List A) → All (λ x. p x ≡ q x) xs → keep p xs ≡ keep q xs
  keep-cong p q [] h = refl
  keep-cong p q (x ∷ xs) h = ground (arith, h.0, keep-cong p q xs h.1)

module _ {A : Type 0} (snapshot_of row_of : A → Str) where
  abbrev pub is_at : Str → Str → A → Bool
  is_at snapshot key x = str_eq (snapshot_of x) snapshot && str_eq (row_of x) key

  abbrev upsert : A → List A → List A
  upsert x xs = x ∷ keep (λ y. not (is_at (snapshot_of x) (row_of x) y)) xs

  abbrev pub upserts : List A → List A → List A
  upserts [] xs = xs
  upserts (y ∷ ys) xs = upserts ys (upsert y xs)

  keep-upsert :
      (snapshot key : Str) (x : A) (xs : List A)
      → keep (is_at snapshot key) (upsert x xs)
        ≡ last_or (keep (is_at snapshot key) xs) (keep (is_at snapshot key) (x ∷ []))
  keep-upsert snapshot key x xs = elim (Bool-cases (is_at snapshot key x)) [
    | inl here ↦
        let gone =
          keep-outside (is_at snapshot key) (λ y. not (is_at (snapshot_of x) (row_of x) y)) xs
            (λ y e. ground (
              arith,
              here,
              e,
              str_eq_iff (snapshot_of y) snapshot,
              str_eq_iff (row_of y) key,
              str_eq_iff (snapshot_of x) snapshot,
              str_eq_iff (row_of x) key,
              str_eq_iff (snapshot_of y) (snapshot_of x),
              str_eq_iff (row_of y) (row_of x),
            )) in
        ground (arith, here, gone)
    | inr away ↦
        let kept =
          keep-inside (is_at snapshot key) (λ y. not (is_at (snapshot_of x) (row_of x) y)) xs
            (λ y e. ground (
              arith,
              away,
              e,
              str_eq_iff (snapshot_of y) snapshot,
              str_eq_iff (row_of y) key,
              str_eq_iff (snapshot_of x) snapshot,
              str_eq_iff (row_of x) key,
              str_eq_iff (snapshot_of y) (snapshot_of x),
              str_eq_iff (row_of y) (row_of x),
            )) in
        ground (arith, away, kept)
  ]

  -- Under each key stands the last row that has it, or else what stood there.
  pub keep-upserts :
      (snapshot key : Str) (ys xs : List A)
      → keep (is_at snapshot key) (upserts ys xs)
        ≡ last_or (keep (is_at snapshot key) xs) (keep (is_at snapshot key) ys)
  keep-upserts snapshot key [] xs = refl
  keep-upserts snapshot key (y ∷ ys) xs =
      let rest = keep-upserts snapshot key ys (upsert y xs) in
      let first = keep-upsert snapshot key y xs in
      elim (Bool-cases (is_at snapshot key y)) [
        | inl here ↦ ground (arith, rest, first, here)
        | inr away ↦ ground (arith, rest, first, away)
      ]

  -- Rows of other snapshots are not touched.
  pub keep-upserts_others :
      (snapshot : Str) (ys xs : List A)
      → All (λ y. snapshot_of y ≡ snapshot) ys
      → keep (λ x. not (str_eq (snapshot_of x) snapshot)) (upserts ys xs)
        ≡ keep (λ x. not (str_eq (snapshot_of x) snapshot)) xs
  keep-upserts_others snapshot [] xs h = refl
  keep-upserts_others snapshot (y ∷ ys) xs h =
      let rest = keep-upserts_others snapshot ys (upsert y xs) h.1 in
      let kept =
        keep-inside (λ x. not (str_eq (snapshot_of x) snapshot))
          (λ x. not (is_at (snapshot_of y) (row_of y) x)) xs
          (λ x e. ground (
            arith,
            e,
            h.0,
            str_eq_iff (snapshot_of x) snapshot,
            str_eq_iff (snapshot_of x) (snapshot_of y),
          )) in
      ground (arith, rest, (str_eq_iff (snapshot_of y) snapshot).1 h.0, kept)

  -- The table of a snapshot after its rows were deleted and others put in.
  pub keep-replaced :
      (snapshot key : Str) (ys xs : List A)
      → All (λ y. snapshot_of y ≡ snapshot) ys
      → keep
          (is_at snapshot key)
          (upserts ys (keep (λ x. not (str_eq (snapshot_of x) snapshot)) xs))
        ≡ last_or [] (keep (λ y. str_eq (row_of y) key) ys)
  keep-replaced snapshot key ys xs h =
      let gone =
        keep-outside (is_at snapshot key) (λ x. not (str_eq (snapshot_of x) snapshot)) xs
          (λ x e. ground (arith, e)) in
      let same =
        keep-cong (is_at snapshot key) (λ y. str_eq (row_of y) key) ys
          (All-imp (λ y e. ground (arith, (str_eq_iff (snapshot_of y) snapshot).1 e)) ys h) in
      rw (keep-upserts snapshot key ys _, gone, same) refl

  pub keep-replaced_others :
      (snapshot : Str) (ys xs : List A)
      → All (λ y. snapshot_of y ≡ snapshot) ys
      → keep
          (λ x. not (str_eq (snapshot_of x) snapshot))
          (upserts ys (keep (λ x. not (str_eq (snapshot_of x) snapshot)) xs))
        ≡ keep (λ x. not (str_eq (snapshot_of x) snapshot)) xs
  keep-replaced_others snapshot ys xs h =
      rw
        (
          keep-upserts_others snapshot ys (keep (λ x. not (str_eq (snapshot_of x) snapshot)) xs) h,
          keep-inside (λ x. not (str_eq (snapshot_of x) snapshot))
              (λ x. not (str_eq (snapshot_of x) snapshot)) xs (λ x e. e),
        )
        refl

module _ {A : Type 0} (snapshot_of : A → Str) where
  -- A row that takes the place of those of its snapshot.
  pub keep-first :
      (snapshot : Str) (x : A) (xs : List A)
      → snapshot_of x ≡ snapshot
      → keep
          (λ y. str_eq (snapshot_of y) snapshot)
          (x
            ∷ keep
                (λ y. not (str_eq (snapshot_of y) (snapshot_of x)))
                (keep (λ y. not (str_eq (snapshot_of y) snapshot)) xs))
        ≡ x ∷ []
  keep-first snapshot x xs h =
      let gone =
        keep-outside (λ y. str_eq (snapshot_of y) snapshot)
          (λ y. not (str_eq (snapshot_of y) (snapshot_of x)))
          (keep (λ y. not (str_eq (snapshot_of y) snapshot)) xs)
          (λ y e. ground (
            arith,
            e,
            h,
            str_eq_iff (snapshot_of y) snapshot,
            str_eq_iff (snapshot_of y) (snapshot_of x),
          )) in
      ground (arith, (str_eq_iff (snapshot_of x) snapshot).1 h, gone)

  pub keep-first_others :
      (snapshot : Str) (x : A) (xs : List A)
      → snapshot_of x ≡ snapshot
      → keep
          (λ y. not (str_eq (snapshot_of y) snapshot))
          (x
            ∷ keep
                (λ y. not (str_eq (snapshot_of y) (snapshot_of x)))
                (keep (λ y. not (str_eq (snapshot_of y) snapshot)) xs))
        ≡ keep (λ y. not (str_eq (snapshot_of y) snapshot)) xs
  keep-first_others snapshot x xs h =
      let kept =
        keep-inside (λ y. not (str_eq (snapshot_of y) snapshot))
          (λ y. not (str_eq (snapshot_of y) (snapshot_of x)))
          (keep (λ y. not (str_eq (snapshot_of y) snapshot)) xs)
          (λ y e. ground (
            arith,
            e,
            h,
            str_eq_iff (snapshot_of y) snapshot,
            str_eq_iff (snapshot_of y) (snapshot_of x),
          )) in
      let twice =
        keep-inside (λ y. not (str_eq (snapshot_of y) snapshot))
          (λ y. not (str_eq (snapshot_of y) snapshot)) xs (λ y e. e) in
      ground (arith, (str_eq_iff (snapshot_of x) snapshot).1 h, kept, twice)
