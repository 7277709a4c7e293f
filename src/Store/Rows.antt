-- ===== src/Store/Rows.antt =====
-- What the SQL of internal/repository does with the rows of one table: SELECT, UPDATE, ORDER BY
-- with LIMIT 1, and counting.
use alcor_device_farm.Prelude.{
  ℕ, ◌+◌, ◌≤◌, ◌≡◌, refl, inl, inr, Bool, true, false, ◌&&◌, not, Option, none, some, List, [], ◌∷◌,
  ◌++◌, arith, Bool-cases, if◌then◌else◌,
}

module _ {R : Type 0} where
  -- the first row that passes
  unfoldable pub find_row : (R → Bool) → List R → Option R
  find_row p [] = none
  find_row p (r ∷ rs) = if p r then some r else find_row p rs

  -- the rows that pass
  unfoldable pub select : (R → Bool) → List R → List R
  select p [] = []
  select p (r ∷ rs) = let rest = select p rs in if p r then r ∷ rest else rest

  -- UPDATE … WHERE
  unfoldable pub update_where : (R → Bool) → (R → R) → List R → List R
  update_where p f [] = []
  update_where p f (r ∷ rs) = (if p r then f r else r) ∷ update_where p f rs

  -- the number of rows that pass: of the rows that an UPDATE touches, and SELECT count(*)
  unfoldable pub count : (R → Bool) → List R → ℕ
  count p [] = 0
  count p (r ∷ rs) = (if p r then 1 else 0) + count p rs

  -- ORDER BY … LIMIT 1: the first of the rows that come first
  unfoldable pub least : (R → R → Bool) → List R → Option R
  least before [] = none
  least before (r ∷ rs) = elim (least before rs) [
    | none ↦ some r
    | some s ↦ some (if before s r then s else r)
  ]

  abbrev pub both : (R → Bool) → (R → Bool) → R → Bool
  both p q r = p r && q r

  -- An update moves the count of `q` by the touched rows that pass before and after.
  pub count-update_where :
      (p q : R → Bool) (f : R → R) (rs : List R)
      → count q (update_where p f rs) + count (both p q) rs
        ≡ count q rs + count (both p (λ r. q (f r))) rs
  unfolding count update_where
  count-update_where p q f [] = omega arith
  count-update_where p q f (r ∷ rs) = ground (arith, count-update_where p q f rs)

  pub count_mono :
      (p q : R → Bool) (rs : List R) → ((r : R) → p r ≡ true → q r ≡ true) → count p rs ≤ count q rs
  unfolding count
  count_mono p q [] h = omega arith
  count_mono p q (r ∷ rs) h = ground (arith, h r, count_mono p q rs h)

  pub count-none : (p : R → Bool) (rs : List R) → ((r : R) → p r ≡ false) → count p rs ≡ 0
  unfolding count
  count-none p [] h = refl
  count-none p (r ∷ rs) h = ground (arith, h r, count-none p rs h)

  pub count-append : (p : R → Bool) (xs ys : List R) → count p (xs ++ ys) ≡ count p xs + count p ys
  unfolding count
  count-append p [] ys = omega arith
  count-append p (r ∷ rs) ys = ground (arith, count-append p rs ys)

  -- the rows of `q` are those that pass `p` and those that do not
  pub count-split :
      (p q : R → Bool) (rs : List R)
      → count q rs ≡ count (both p q) rs + count (both q (λ r. not (p r))) rs
  unfolding count
  count-split p q [] = refl
  count-split p q (r ∷ rs) = ground (arith, count-split p q rs)

  -- a row that is found is counted
  pub count-find_row :
      (p q : R → Bool) (rs : List R) {r : R}
      → find_row p rs ≡ some r
      → q r ≡ true
      → 1 ≤ count (both p q) rs
  unfolding count find_row
  count-find_row p q [] e h = cc
  count-find_row p q (x ∷ xs) {r} e h = elim (Bool-cases (p x)) [
    | inl y ↦ ground arith
    | inr n ↦ ground (arith, count-find_row p q xs {r = r} (ground arith) h)
  ]

  pub find_row-passes : (p : R → Bool) (rs : List R) {r : R} → find_row p rs ≡ some r → p r ≡ true
  unfolding find_row
  find_row-passes p [] e = cc
  find_row-passes p (x ∷ xs) {r} e = elim (Bool-cases (p x)) [
    | inl y ↦ ground arith
    | inr n ↦ find_row-passes p xs (ground arith)
  ]

  pub count-cong : (p q : R → Bool) (rs : List R) → ((r : R) → p r ≡ q r) → count p rs ≡ count q rs
  unfolding count
  count-cong p q [] h = refl
  count-cong p q (r ∷ rs) h = ground (arith, h r, count-cong p q rs h)

  -- an update that no row of `q` shows keeps the count of `q`
  pub count-update_same :
      (p q : R → Bool) (f : R → R) (rs : List R)
      → ((r : R) → p r ≡ true → q (f r) ≡ q r)
      → count q (update_where p f rs) ≡ count q rs
  count-update_same p q f rs h = omega (
    arith,
    count-update_where p q f rs,
    count-cong (both p q) (both p (λ r. q (f r))) rs (λ r. ground (arith, h r)),
  )

  -- the first row that passes one test, if it passes another, is the first that passes both
  pub find_row-both :
      (p q : R → Bool) (rs : List R) {r : R}
      → find_row p rs ≡ some r
      → q r ≡ true
      → find_row (both p q) rs ≡ some r
  unfolding find_row
  find_row-both p q [] e h = cc
  find_row-both p q (x ∷ xs) {r} e h = elim (Bool-cases (p x)) [
    | inl y ↦ ground arith
    | inr n ↦ ground (arith, find_row-both p q xs {r = r} (ground arith) h)
  ]
