-- ===== src/System/Creation.antt =====
-- A request for a reservation that is repeated returns the reservation of the first one, whatever
-- happened in between (internal/repository/reservation.go, CreatePending).
use alcor_device_farm.Prelude.{
  ℕ, ◌≡◌, refl, ◌∙◌, inl, inr, Bool, true, String, some, List, [], ◌∷◌, ◌++◌, arith, eq_refl,
  Option-cases, Bool-cases,
}
use alcor_device_farm.Failure.{Error, ok, ◌>>=◌, guard, OnOk, OnOk-ok, >>=-OnOk, >>-OnOk, guard-ok}
use alcor_device_farm.Store.{Store, ReservationRow, RequestedCapabilities}
use alcor_device_farm.Store.Rows.{find_row, update_where}
use alcor_device_farm.Store.Lookup.{append-last, append-found, update-found}
use alcor_device_farm.Repository.Writes.{
  reserve_for_claim, compensate_claim, fail_pending_claim, fail_pending_reservation, cancel_pending,
  extend, close_active, create_pending, CreateReservationParams, activate_claimed, has_key,
  pending_row, same_reservation_request, satisfies_checks, update_one, update_returning,
  update_one-ok, update_returning-ok,
}
use alcor_device_farm.Kept.{Kept}
use alcor_device_farm.System.{Step, run, run-keeps}

module _ (same : RequestedCapabilities → RequestedCapabilities → Bool) (p : CreateReservationParams)
    (id : String) where
  abbrev by_key : ReservationRow → Bool
  by_key = has_key p.client_id p.idempotency_key

  -- The key of the request finds a row with the id, which is the requested one.
  record AnswersRow (rows : List ReservationRow) : Type 0 where
    pub row : ReservationRow
    pub row_id : row.id ≡ id
    pub found : find_row by_key rows ≡ some row
    pub asked : same_reservation_request same row p ≡ true

  abbrev IsAnswered : Store → Type 0
  IsAnswered s = AnswersRow s.reservations

  -- An update that keeps the key, the id and the request keeps the answer.
  update-AnswersRow :
      (q : ReservationRow → Bool) (f : ReservationRow → ReservationRow) (rows : List ReservationRow)
      → ((r : ReservationRow) → by_key (f r) ≡ by_key r)
      → ((r : ReservationRow) → (f r).id ≡ r.id)
      → ((r : ReservationRow)
          → same_reservation_request same (f r) p ≡ same_reservation_request same r p)
      → AnswersRow rows
      → AnswersRow (update_where q f rows)
  update-AnswersRow q f rows key ids req x =
      let after = update-found by_key q f (λ r _. key r) rows x.found in
      elim (Bool-cases (q x.row)) [
        | inl y ↦ record {
          row = f x.row;
          row_id = ids x.row ∙ x.row_id;
          found = ground (arith, after, y);
          asked = req x.row ∙ x.asked;
        }
        | inr y ↦ record {
          row = x.row;
          row_id = x.row_id;
          found = ground (arith, after, y);
          asked = x.asked;
        }
      ]

  append-AnswersRow :
      (rows : List ReservationRow) (r : ReservationRow)
      → AnswersRow rows
      → AnswersRow (rows ++ r ∷ [])
  append-AnswersRow rows r x = record {
    row = x.row;
    row_id = x.row_id;
    found = append-found by_key rows r x.found;
    asked = x.asked;
  }

  create-IsAnswered :
      (other : RequestedCapabilities → RequestedCapabilities → Bool) (s : Store)
      (q : CreateReservationParams) (clock : ℕ)
      → IsAnswered s
      → OnOk (λ t. IsAnswered t.1) (create_pending other s q clock)
  unfolding create_pending
  create-IsAnswered other s q clock x = >>-OnOk λ _.
      elim (Option-cases (find_row (has_key q.client_id q.idempotency_key) s.reservations)) [
        | inl e ↦
            rw (e, create_pending)
              (>>-OnOk λ _. >>-OnOk λ _.
                >>-OnOk λ _. OnOk-ok _ (append-AnswersRow s.reservations (pending_row q clock) x))
        | inr (r, e) ↦ rw (e, create_pending) (>>-OnOk λ _. OnOk-ok _ x)
      ]

  module _ (q : ReservationRow → Bool) (f : ReservationRow → ReservationRow)
      (rows : List ReservationRow) (e : Error)
      (key : (r : ReservationRow) → by_key (f r) ≡ by_key r)
      (ids : (r : ReservationRow) → (f r).id ≡ r.id)
      (req : (r : ReservationRow)
        → same_reservation_request same (f r) p ≡ same_reservation_request same r p) where
    one-AnswersRow :
        {out : List ReservationRow}
        → update_one q f rows e ≡ ok out
        → AnswersRow rows
        → AnswersRow out
    one-AnswersRow h x =
        rw ((update_one-ok q f rows e h).1) (update-AnswersRow q f rows key ids req x)

    returning-AnswersRow :
        {out : ReservationRow × List ReservationRow}
        → update_returning q f rows e ≡ ok out
        → AnswersRow rows
        → AnswersRow out.1
    returning-AnswersRow {out} h x =
        let (row, found, same_out) = update_returning-ok q f rows e h in
        rw same_out (update-AnswersRow q f rows key ids req x)

  IsAnswered-Kept : Kept IsAnswered
  unfolding reserve_for_claim compensate_claim fail_pending_claim fail_pending_reservation
      cancel_pending extend close_active activate_claimed same_reservation_request
  IsAnswered-Kept = record {
    by_reserve = λ s r d t x. >>=-OnOk λ _ _.
        >>=-OnOk λ _ f. OnOk-ok _ (one-AnswersRow _ _ _ _ (λ r. refl) (λ r. refl) (λ r. refl) f x);
    by_compensate = λ s r d c b t x. >>=-OnOk λ _ _. >>=-OnOk λ _ _.
        >>=-OnOk λ _ f. OnOk-ok _ (one-AnswersRow _ _ _ _ (λ r. refl) (λ r. refl) (λ r. refl) f x);
    by_fail_claim = λ s r d c t x. >>=-OnOk λ _ _.
        >>=-OnOk λ _ f. OnOk-ok _ (one-AnswersRow _ _ _ _ (λ r. refl) (λ r. refl) (λ r. refl) f x);
    by_fail_pending = λ s r c t x.
        >>=-OnOk λ _ f. OnOk-ok _ (one-AnswersRow _ _ _ _ (λ r. refl) (λ r. refl) (λ r. refl) f x);
    by_cancel = λ s r c t x.
        >>=-OnOk
          λ _ f. OnOk-ok _ (returning-AnswersRow _ _ _ _ (λ r. refl) (λ r. refl) (λ r. refl) f x);
    by_extend = λ s r e c x.
        >>=-OnOk
          λ _ f. OnOk-ok _ (returning-AnswersRow _ _ _ _ (λ r. refl) (λ r. refl) (λ r. refl) f x);
    by_close = λ s r d t c g n _ _ _ _ x. >>=-OnOk λ _ _.
        >>=-OnOk
          λ _ f. OnOk-ok _ (returning-AnswersRow _ _ _ _ (λ r. refl) (λ r. refl) (λ r. refl) f x);
    by_create = create-IsAnswered;
    by_activate = λ s r d n t x. >>=-OnOk λ _ _. >>=-OnOk λ _ f. >>-OnOk λ _. >>-OnOk λ _.
        >>-OnOk
          λ _. OnOk-ok _ (returning-AnswersRow _ _ _ _ (λ r. refl) (λ r. refl) (λ r. refl) f x);
    by_devices = λ s devices x. x;
    by_audit = λ s audits x. x;
    by_operation = λ s q x. x;
  }

-- what a creation leaves answers the request
created-IsAnswered :
    (same : RequestedCapabilities → RequestedCapabilities → Bool) (s : Store)
    (p : CreateReservationParams) (clock : ℕ)
    → OnOk (λ t. IsAnswered same p t.0.id t.1) (create_pending same s p clock)
unfolding create_pending
created-IsAnswered same s p clock = >>-OnOk λ _.
    elim (Option-cases (find_row (has_key p.client_id p.idempotency_key) s.reservations)) [
      | inr (r, e) ↦
          rw (e, create_pending)
            (>>-OnOk
              λ h. OnOk-ok _ (record { row = r; row_id = refl; found = e; asked = guard-ok _ _ h }))
      | inl e ↦
          rw (e, create_pending)
            (>>-OnOk λ _. >>-OnOk λ _. >>-OnOk λ h. OnOk-ok _ (record {
              row = pending_row p clock;
              row_id = refl;
              found =
                  append-last _ s.reservations (pending_row p clock) e
                    (ground (arith, eq_refl p.client_id, eq_refl p.idempotency_key));
              asked = guard-ok _ _ h;
            }))
    ]

-- After a creation has succeeded, whatever transactions of the scheduler, of the reservation service
-- and of the reaper follow and whatever other components make of the devices, the same request, with
-- any new id that passes the checks and at any time, returns the reservation of the first one, as it
-- is by then, and leaves the store.
pub create_pending-again :
    (same : RequestedCapabilities → RequestedCapabilities → Bool) (s : Store)
    (p : CreateReservationParams) (clock later : ℕ) (id : String) (steps : List Step)
    {t : ReservationRow × Store}
    → create_pending same s p clock ≡ ok t
    → satisfies_checks (record p { id = id }) ≡ true
    → (q : ReservationRow) × (q.id ≡ t.0.id)
      × (create_pending same (run t.1 steps) (record p { id = id }) later ≡ ok (q, run t.1 steps))
unfolding create_pending guard ◌>>=◌ same_reservation_request
create_pending-again same s p clock later id steps {t} e checked =
    let answer =
      run-keeps (IsAnswered same p t.0.id) (IsAnswered-Kept same p t.0.id) t.1 steps
        ((created-IsAnswered same s p clock).apply t e) in
    (
      answer.row,
      answer.row_id,
      rw (checked, create_pending)
          (rw (answer.found, create_pending) (rw (answer.asked, guard) refl)),
    )
