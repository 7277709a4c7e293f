-- ===== src/Paired/Activation.antt =====
-- An activation opens the one session of the reservation, and keeps reservations and sessions
-- matched; with it, every update of the repository does.
use alcor_device_farm.Prelude.{
  ℕ, ◌+◌, ◌*◌, ◌≤◌, ◌≡◌, refl, inl, inr, Bool, String, some, List, [], ◌∷◌, ◌++◌, arith,
  str_eq-cases, eq_iff,
}
use alcor_device_farm.Failure.{OnOk, OnOk-ok, >>=-OnOk, >>-OnOk}
use alcor_device_farm.Domain.Reservation.{ReservationStatus}
use alcor_device_farm.Domain.Session.{SessionStatus}
use alcor_device_farm.Store.{Store, ReservationRow, SessionRow, second}
use alcor_device_farm.Store.Rows.{
  update_where, count, both, count-update_where, count-none, count-cong, count-append, count_mono,
  count-update_same, count-find_row, find_row, find_row-passes,
}
use alcor_device_farm.Repository.Writes.{
  activate_claimed, has_session, new_session, is_claim, update_returning-ok,
}
use alcor_device_farm.Paired.{IsPaired, Matched, has_row, active_row}
use alcor_device_farm.Paired.Updates.{
  reserve-IsPaired, compensate-IsPaired, fail_claim-IsPaired, fail_pending-IsPaired,
  cancel-IsPaired, extend-IsPaired, close-IsPaired, create-IsPaired,
}
use alcor_device_farm.Kept.{Kept}

module _ (reservation device session : String) (time : ℕ) where
  abbrev claimed : ReservationRow → Bool
  claimed = is_claim reservation device

  abbrev activate : ReservationRow → ReservationRow
  activate r = record r {
    device_id = some device;
    status = ReservationStatus.active;
    starts_at = some time;
    expires_at = some (time + r.lease_seconds * second);
    updated_at = time;
  }

  abbrev opened : SessionRow
  opened = new_session session reservation device time

  -- the claim is the one row under its id
  one_claim :
      (rows : List ReservationRow) {r : ReservationRow}
      → find_row claimed rows ≡ some r
      → count (has_row reservation) rows ≤ 1
      → count claimed rows ≡ 1
  one_claim rows {r} found keyed = omega (
    arith,
    count-find_row claimed claimed rows found (find_row-passes claimed rows found),
    count-cong (both claimed claimed) claimed rows (λ r. ground arith),
    count_mono claimed (has_row reservation) rows (λ r h. ground arith),
  )

  activated-Matched :
      (rows : List ReservationRow) (sessions : List SessionRow) {r : ReservationRow}
      → find_row claimed rows ≡ some r
      → Matched rows sessions
      → Matched (update_where claimed activate rows) (sessions ++ opened ∷ [])
  unfolding count
  activated-Matched rows sessions {r} found x = record {
    keyed = λ id.
        omega
          (arith, x.keyed id, count-update_same claimed (has_row id) activate rows (λ r h. refl));
    matched = λ id. elim (str_eq-cases reservation id) [
      | inl (e, t) ↦ ground (
        arith,
        moved id,
        x.matched id,
        count-append (has_session id SessionStatus.active) sessions (opened ∷ []),
        one_claim rows {r = r} found (x.keyed reservation),
        count-cong (both claimed (λ r. active_row id (activate r))) claimed rows
            (λ r. ground (arith, eq_iff r.id reservation, eq_iff r.id id)),
      )
      | inr (n, t) ↦ ground (
        arith,
        moved id,
        x.matched id,
        count-append (has_session id SessionStatus.active) sessions (opened ∷ []),
        count-none (both claimed (λ r. active_row id (activate r))) rows
            (λ r. ground (arith, eq_iff r.id reservation, eq_iff r.id id)),
      )
    ];
  }
    where
      moved :
          (id : String)
          → count (active_row id) (update_where claimed activate rows)
            ≡ count (active_row id) rows
              + count (both claimed (λ r. active_row id (activate r))) rows
      moved id = omega (
        arith,
        count-update_where claimed (active_row id) activate rows,
        count-none (both claimed (active_row id)) rows (λ r. ground arith),
      )

activate_claimed-IsPaired :
    (s : Store) (reservation device session : String) (time : ℕ)
    → IsPaired s
    → OnOk (λ t. IsPaired t.2) (activate_claimed s reservation device session time)
unfolding activate_claimed
activate_claimed-IsPaired s reservation device session time x = >>=-OnOk λ devices _.
    >>=-OnOk λ out f. >>-OnOk λ _. >>-OnOk λ _. >>-OnOk λ _. OnOk-ok _ (
      let (row, found, r) = update_returning-ok _ _ s.reservations _ f in
      rw r (activated-Matched reservation device session time s.reservations s.sessions found x))

pub IsPaired-Kept : Kept IsPaired
IsPaired-Kept = record {
  by_reserve = reserve-IsPaired;
  by_compensate = compensate-IsPaired;
  by_fail_claim = fail_claim-IsPaired;
  by_fail_pending = fail_pending-IsPaired;
  by_cancel = cancel-IsPaired;
  by_extend = extend-IsPaired;
  by_close = λ s r d t c g n _ _ _ na x. close-IsPaired s r d t c g n na x;
  by_create = create-IsPaired;
  by_activate = activate_claimed-IsPaired;
  by_devices = λ s devices x. record { keyed = x.keyed; matched = x.matched };
  by_audit = λ s audits x. record { keyed = x.keyed; matched = x.matched };
  by_operation = λ s operations x. record { keyed = x.keyed; matched = x.matched };
}
