-- ===== src/Store/Lookup.antt =====
-- The row that a lookup finds after an UPDATE and an INSERT, and the row that ORDER BY with LIMIT 1
-- returns where no key is twice.
use alcor_device_farm.Prelude.{
  ◌≡◌, ◌≤◌, refl, inl, inr, Bool, true, false, none, some, List, [], ◌∷◌, ◌++◌, arith, All, any,
  Bool-cases, if◌then◌else◌,
}
use alcor_device_farm.Store.Rows.{
  find_row, select, least, update_where, count, both, count_mono, find_row-passes, count-find_row,
}
use alcor_device_farm.Store.Order.{least-All, select-passes}

-- an update that keeps what is searched keeps what is found, updated if it is to be
module _ {R : Type 0} (p q : R → Bool) (f : R → R) (h : (r : R) → q r ≡ true → p (f r) ≡ p r) where
  pub update-found :
      (rows : List R) {r : R}
      → find_row p rows ≡ some r
      → find_row p (update_where q f rows) ≡ some (if q r then f r else r)
  unfolding find_row update_where
  update-found [] e = cc
  update-found (x ∷ rows) {r} e = elim (Bool-cases (p x)) [
    | inl z ↦ elim (Bool-cases (q x)) [ inl y ↦ ground (arith, h x) | inr y ↦ ground arith ]
    | inr z ↦ elim (Bool-cases (q x)) [
      | inl y ↦ ground (arith, h x, update-found rows {r = r})
      | inr y ↦ ground (arith, update-found rows {r = r})
    ]
  ]

  pub update-none :
      (rows : List R) → find_row p rows ≡ none → find_row p (update_where q f rows) ≡ none
  unfolding find_row update_where
  update-none [] e = refl
  update-none (x ∷ rows) e = elim (Bool-cases (p x)) [
    | inl z ↦ cc
    | inr z ↦ elim (Bool-cases (q x)) [
      | inl y ↦ ground (arith, h x, update-none rows)
      | inr y ↦ ground (arith, update-none rows)
    ]
  ]

module _ {R : Type 0} where
  pub append-found :
      (p : R → Bool) (rows : List R) (x : R) {r : R}
      → find_row p rows ≡ some r
      → find_row p (rows ++ x ∷ []) ≡ some r
  unfolding find_row
  append-found p [] x e = cc
  append-found p (y ∷ rows) x {r} e = ground (arith, append-found p rows x {r = r})

  pub append-none :
      (p : R → Bool) (rows : List R) (x : R)
      → find_row p rows ≡ none
      → find_row p (rows ++ x ∷ []) ≡ (if p x then some x else none)
  unfolding find_row
  append-none p [] x e = refl
  append-none p (y ∷ rows) x e = ground (arith, append-none p rows x)

  pub append-last :
      (p : R → Bool) (rows : List R) (x : R)
      → find_row p rows ≡ none
      → p x ≡ true
      → find_row p (rows ++ x ∷ []) ≡ some x
  append-last p rows x e h = ground (arith, append-none p rows x)

  pub any-find_row : (p : R → Bool) (rows : List R) → any p rows ≡ false → find_row p rows ≡ none
  unfolding find_row
  any-find_row p [] e = refl
  any-find_row p (y ∷ rows) e = ground (arith, any-find_row p rows)

  pub any-count : (p : R → Bool) (rows : List R) → any p rows ≡ false → count p rows ≡ 0
  unfolding count
  any-count p [] e = refl
  any-count p (y ∷ rows) e = ground (arith, any-count p rows)

  pub none-count : (p : R → Bool) (rows : List R) → find_row p rows ≡ none → count p rows ≡ 0
  unfolding find_row count
  none-count p [] e = refl
  none-count p (y ∷ rows) e = ground (arith, none-count p rows)

  -- a row that passes two tests is the one that passes the first, if only one does
  pub both-found :
      (p q : R → Bool) (rows : List R) {r : R}
      → count p rows ≤ 1
      → find_row (both p q) rows ≡ some r
      → find_row p rows ≡ some r
  unfolding find_row count
  both-found p q [] h e = cc
  both-found p q (x ∷ rows) {r} h e = elim (Bool-cases (p x)) [
    | inl y ↦ elim (Bool-cases (q x)) [
      | inl z ↦ ground arith
      | inr z ↦ absurd (
          ground (
            arith,
            h,
            count-find_row (both p q) (both p q) rows {r = r} (ground (arith, e))
                (find_row-passes (both p q) rows (ground (arith, e))),
            count_mono (both (both p q) (both p q)) p rows (λ u v. ground arith),
          ))
    ]
    | inr z ↦ ground (arith, both-found p q rows {r = r})
  ]

  -- a row that is found by one test is found by another that it alone passes
  pub found-other :
      (p q : R → Bool) (rows : List R) {r : R}
      → count q rows ≤ 1
      → find_row p rows ≡ some r
      → q r ≡ true
      → find_row q rows ≡ some r
  unfolding find_row count
  found-other p q [] h e y = cc
  found-other p q (x ∷ rows) {r} h e y = elim (Bool-cases (p x)) [
    | inl z ↦ ground arith
    | inr z ↦ elim (Bool-cases (q x)) [
      | inl w ↦ absurd (
          ground (
            arith,
            h,
            count_mono (both p q) q rows (λ u v. ground arith),
            count-find_row p q rows {r = r} (ground (arith, e)) y,
          ))
      | inr w ↦ ground (arith, found-other p q rows {r = r})
    ]
  ]

  All-imp : (P Q : R → Type 0) (rows : List R) → ((r : R) → P r → Q r) → All P rows → All Q rows
  All-imp P Q [] h a = tt
  All-imp P Q (x ∷ rows) h a = (h x a.0, All-imp P Q rows h a.1)

  All-both :
      (P Q : R → Type 0) (rows : List R) → All P rows → All Q rows → All (λ r. P r × Q r) rows
  All-both P Q [] a b = tt
  All-both P Q (x ∷ rows) a b = ((a.0, b.0), All-both P Q rows a.1 b.1)

  All-select : (p : R → Bool) (P : R → Type 0) (rows : List R) → All P rows → All P (select p rows)
  unfolding select
  All-select p P [] a = tt
  All-select p P (x ∷ rows) a = elim (Bool-cases (p x)) [
    | inl h ↦ rw (h, select) (a.0, All-select p P rows a.1)
    | inr h ↦ rw (h, select) (All-select p P rows a.1)
  ]

-- `at r` is the test for the key of `r`, and no key is twice.
module _ {R : Type 0} (at : R → R → Bool) (at_self : (r : R) → at r r ≡ true) where
  found-All :
      (rows : List R)
      → ((r : R) → count (at r) rows ≤ 1)
      → All (λ r. find_row (at r) rows ≡ some r) rows
  unfolding count find_row
  found-All [] h = tt
  found-All (x ∷ rows) h = (
    rw (at_self x) refl,
    All-imp _ _ rows
        (λ r e. elim (Bool-cases (at r x)) [
          | inl y ↦ absurd (
              ground (
                arith,
                h r,
                count_mono (both (at r) (at r)) (at r) rows (λ u v. ground arith),
                count-find_row (at r) (at r) rows e (find_row-passes (at r) rows e),
              ))
          | inr n ↦ rw n e
        ])
        (found-All rows (λ r. ground (arith, h r))),
  )

  pub least-found :
      (before : R → R → Bool) (p : R → Bool) (rows : List R) {c : R}
      → ((r : R) → count (at r) rows ≤ 1)
      → least before (select p rows) ≡ some c
      → (p c ≡ true) × (find_row (at c) rows ≡ some c)
  least-found before p rows h e =
      least-All before _ (select p rows)
        (All-both _ _ (select p rows) (select-passes p rows)
          (All-select p _ rows (found-All rows h)))
        e
