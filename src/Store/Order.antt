-- ===== src/Store/Order.antt =====
-- ORDER BY with LIMIT 1 returns a row that comes first, and it returns one if there is any.
use alcor_device_farm.Prelude.{
  ℕ, ◌≤◌, ◌≡◌, refl, inl, inr, Bool, true, false, none, some, List, [], ◌∷◌, arith, All, Bool-cases,
  Option-cases, if◌then◌else◌, subst, sym, ap, Option,
}
use alcor_device_farm.Store.Rows.{select, least}

module _ {R : Type 0} where
  pub least-none : (before : R → R → Bool) (rows : List R) → least before rows ≡ none → rows ≡ []
  unfolding least
  least-none before [] n = refl
  least-none before (y ∷ ys) n =
      absurd
        (elim (Option-cases (least before ys)) [ inl h ↦ ground arith | inr (s, h) ↦ ground arith ])

  All-empty : (P : R → Type 0) (rows : List R) → rows ≡ [] → All P rows
  All-empty P [] e = tt
  All-empty P (y ∷ ys) e = cc

  All-le :
      (m : R → ℕ) (s r : R) (rows : List R)
      → m r ≤ m s
      → All (λ x. m s ≤ m x) rows
      → All (λ x. m r ≤ m x) rows
  All-le m s r [] h a = tt
  All-le m s r (y ∷ ys) h a = (omega (arith, a.0), All-le m s r ys h a.1)

  -- `before` puts a row with a lower measure first.
  pub least-first :
      (before : R → R → Bool) (m : R → ℕ) (rows : List R) {r : R}
      → ((a b : R) → before a b ≡ true → m a ≤ m b)
      → ((a b : R) → before a b ≡ false → m b ≤ m a)
      → least before rows ≡ some r
      → All (λ x. m r ≤ m x) rows
  unfolding least
  least-first before m [] low high e = tt
  least-first before m (x ∷ xs) {r} low high e = elim (Option-cases (least before xs)) [
    | inl n ↦ (ground (arith, n), All-empty _ xs (least-none before xs n))
    | inr (s, f) ↦ elim (Bool-cases (before s x)) [
      | inl h ↦ (ground (arith, low s x), least-first before m xs low high (ground (arith, f)))
      | inr h ↦ (
        ground arith,
        All-le m s r xs (ground (arith, high s x)) (least-first before m xs low high f),
      )
    ]
  ]

  pub least-All :
      (before : R → R → Bool) (P : R → Type 0) (rows : List R) {r : R}
      → All P rows
      → least before rows ≡ some r
      → P r
  unfolding least
  least-All before P [] a e = cc
  least-All before P (x ∷ xs) {r} a e = elim (Option-cases (least before xs)) [
    | inl n ↦ ground (arith, a.0)
    | inr (s, f) ↦ elim (Bool-cases (before s x)) [
      | inl h ↦ least-All before P xs a.1 (ground (arith, f))
      | inr h ↦ ground (arith, a.0)
    ]
  ]

  pub select-passes : (p : R → Bool) (rows : List R) → All (λ x. p x ≡ true) (select p rows)
  unfolding select
  select-passes p [] = tt
  select-passes p (x ∷ xs) = elim (Bool-cases (p x)) [
    | inl h ↦ rw (h, select) (h, select-passes p xs)
    | inr h ↦ rw (h, select) (select-passes p xs)
  ]

  pub select-All :
      (p : R → Bool) (P : R → Type 0) (rows : List R)
      → All P (select p rows)
      → All (λ x. p x ≡ true → P x) rows
  unfolding select
  select-All p P [] a = tt
  select-All p P (x ∷ xs) a = elim (Bool-cases (p x)) [
    | inl h ↦
        let b : P x × All P (select p xs) =
          subst (All P) (ap (λ c. if c then x ∷ select p xs else select p xs) h) a in
        (λ _. b.0, select-All p P xs b.1)
    | inr h ↦
        let b : All P (select p xs) =
          subst (All P) (ap (λ c. if c then x ∷ select p xs else select p xs) h) a in
        (λ e. cc, select-All p P xs b)
  ]

  nothing_selected :
      (p : R → Bool) (rows : List R) → select p rows ≡ [] → All (λ x. p x ≡ false) rows
  unfolding select
  nothing_selected p [] e = tt
  nothing_selected p (x ∷ xs) e = elim (Bool-cases (p x)) [
    | inl h ↦ absurd (ground arith)
    | inr h ↦ (h, nothing_selected p xs (ground arith))
  ]

  -- What a selection has to be: a row that passes and that no other such row comes before in the
  -- measure, or none if no row passes.
  abbrev pub IsEarliest : (R → Bool) → (R → ℕ) → List R → Option R → Type 0
  IsEarliest p m rows none = All (λ x. p x ≡ false) rows
  IsEarliest p m rows (some r) = (p r ≡ true) × All (λ x. p x ≡ true → m r ≤ m x) rows

  pub least-IsEarliest :
      (before : R → R → Bool) (p : R → Bool) (m : R → ℕ) (rows : List R)
      → ((a b : R) → before a b ≡ true → m a ≤ m b)
      → ((a b : R) → before a b ≡ false → m b ≤ m a)
      → IsEarliest p m rows (least before (select p rows))
  least-IsEarliest before p m rows low high = elim (Option-cases (least before (select p rows))) [
    | inl e ↦
        subst (IsEarliest p m rows) (sym e)
          (nothing_selected p rows (least-none before (select p rows) e))
    | inr (r, e) ↦ subst (IsEarliest p m rows) (sym e) (
      least-All before (λ x. p x ≡ true) (select p rows) (select-passes p rows) e,
      select-All p (λ x. m r ≤ m x) rows (least-first before m (select p rows) low high e),
    )
  ]
