-- ===== src/Repository/Writes/Updates.antt =====
-- The two forms of UPDATE of internal/repository/reservation.go, and what their success says.
use alcor_device_farm.Prelude.{
  ◌≡◌, refl, Bool, none, some, List, ◌==◌, arith, Option-cases, inl, inr, if◌then◌else◌,
}
use alcor_device_farm.Failure.{Error, Result, ok, err}
use alcor_device_farm.Store.Rows.{find_row, update_where, count}

module _ {R : Type 0} where
  -- An UPDATE after which the source checks that exactly one row was affected.
  unfoldable pub update_one : (R → Bool) → (R → R) → List R → Error → Result (List R)
  update_one p f rows e = if count p rows == 1 then ok (update_where p f rows) else err e

  -- UPDATE … RETURNING, of which the source reads the first row.
  unfoldable pub update_returning : (R → Bool) → (R → R) → List R → Error → Result (R × List R)
  update_returning p f rows e = elim (find_row p rows) [
    | none ↦ err e
    | some r ↦ ok (f r, update_where p f rows)
  ]

  pub update_one-ok :
      (p : R → Bool) (f : R → R) (rows : List R) (e : Error) {out : List R}
      → update_one p f rows e ≡ ok out
      → (count p rows ≡ 1) × (out ≡ update_where p f rows)
  unfolding update_one
  update_one-ok p f rows e h = ground arith

  pub update_one-applies :
      (p : R → Bool) (f : R → R) (rows : List R) (e : Error)
      → count p rows ≡ 1
      → update_one p f rows e ≡ ok (update_where p f rows)
  unfolding update_one
  update_one-applies p f rows e h = rw h refl

  pub update_returning-ok :
      (p : R → Bool) (f : R → R) (rows : List R) (e : Error) {out : R × List R}
      → update_returning p f rows e ≡ ok out
      → (r : R) × (find_row p rows ≡ some r) × (out ≡ (f r, update_where p f rows))
  unfolding update_returning
  update_returning-ok p f rows e h = elim (Option-cases (find_row p rows)) [
    | inl n ↦ absurd (ground arith)
    | inr (r, q) ↦ (r, q, ground arith)
  ]
