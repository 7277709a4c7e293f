-- ===== src/Paired/Updates.antt =====
-- The updates of internal/repository keep reservations and sessions matched.
use alcor_device_farm.Prelude.{
  ℕ, ◌≡◌, refl, inl, inr, Bool, false, not, String, some, List, [], ◌∷◌, arith, str_eq-cases,
  eq_iff, any, Option-cases,
}
use alcor_device_farm.Failure.{OnOk, OnOk-ok, >>=-OnOk, >>-OnOk, guard-ok}
use alcor_device_farm.Domain.Lifecycle.{DeviceLifecycleStatus}
use alcor_device_farm.Domain.Reservation.{ReservationStatus, reservation_same}
use alcor_device_farm.Domain.Session.{SessionStatus}
use alcor_device_farm.Store.{Store, ReservationRow, SessionRow, RequestedCapabilities}
use alcor_device_farm.Store.Rows.{
  update_where, count, both, count-update_where, count-none, count-cong, count-append,
  count-update_same, count-split, find_row,
}
use alcor_device_farm.Repository.Writes.{
  reserve_for_claim, compensate_claim, fail_pending_claim, fail_pending_reservation, cancel_pending,
  extend, close_active, create_pending, CreateReservationParams, pending_row, has_session, has_key,
  update_one-ok, update_returning-ok,
}
use alcor_device_farm.Paired.{IsPaired, Matched, update-Matched, has_row, active_row, count-any}

pub reserve-IsPaired :
    (s : Store) (reservation device : String) (time : ℕ)
    → IsPaired s
    → OnOk IsPaired (reserve_for_claim s reservation device time)
unfolding reserve_for_claim
reserve-IsPaired s reservation device time x = >>=-OnOk λ devices e. >>=-OnOk λ rows f. OnOk-ok _ (
    let (_, r) = update_one-ok _ _ s.reservations _ f in
    rw r (update-Matched _ _ s.reservations s.sessions (λ y. refl) (λ y h. refl) x))

pub compensate-IsPaired :
    (s : Store) (reservation device code : String) (terminal : Bool) (time : ℕ)
    → IsPaired s
    → OnOk IsPaired (compensate_claim s reservation device code terminal time)
unfolding compensate_claim
compensate-IsPaired s reservation device code terminal time x = >>=-OnOk λ a _. >>=-OnOk λ b _.
    >>=-OnOk λ rows f. OnOk-ok _ (
      let (_, r) = update_one-ok _ _ s.reservations _ f in
      rw r (update-Matched _ _ s.reservations s.sessions (λ y. refl) (λ y h. ground arith) x))

pub fail_claim-IsPaired :
    (s : Store) (reservation device code : String) (time : ℕ)
    → IsPaired s
    → OnOk IsPaired (fail_pending_claim s reservation device code time)
unfolding fail_pending_claim
fail_claim-IsPaired s reservation device code time x = >>=-OnOk λ a _. >>=-OnOk λ rows f.
    OnOk-ok _ (
      let (_, r) = update_one-ok _ _ s.reservations _ f in
      rw r (update-Matched _ _ s.reservations s.sessions (λ y. refl) (λ y h. ground arith) x))

pub fail_pending-IsPaired :
    (s : Store) (reservation code : String) (time : ℕ)
    → IsPaired s
    → OnOk IsPaired (fail_pending_reservation s reservation code time)
unfolding fail_pending_reservation
fail_pending-IsPaired s reservation code time x = >>=-OnOk λ rows f. OnOk-ok _ (
    let (_, r) = update_one-ok _ _ s.reservations _ f in
    rw r (update-Matched _ _ s.reservations s.sessions (λ y. refl) (λ y h. ground arith) x))

pub cancel-IsPaired :
    (s : Store) (reservation code : String) (time : ℕ)
    → IsPaired s
    → OnOk (λ t. IsPaired t.1) (cancel_pending s reservation code time)
unfolding cancel_pending
cancel-IsPaired s reservation code time x = >>=-OnOk λ out f. OnOk-ok _ (
    let (_, _, r) = update_returning-ok _ _ s.reservations _ f in
    rw r (update-Matched _ _ s.reservations s.sessions (λ y. refl) (λ y h. ground arith) x))

pub extend-IsPaired :
    (s : Store) (reservation : String) (expires clock : ℕ)
    → IsPaired s
    → OnOk (λ t. IsPaired t.1) (extend s reservation expires clock)
unfolding extend
extend-IsPaired s reservation expires clock x = >>=-OnOk λ out f. OnOk-ok _ (
    let (_, _, r) = update_returning-ok _ _ s.reservations _ f in
    rw r (update-Matched _ _ s.reservations s.sessions (λ y. refl) (λ y h. refl) x))

module _ (reservation : String) (terminal : ReservationStatus) (time : ℕ)
    (ends : reservation_same terminal ReservationStatus.active ≡ false) where
  abbrev close_session : SessionRow → SessionRow
  close_session x = record x { status = SessionStatus.closing; updated_at = time }

  abbrev end_session : SessionRow → SessionRow
  end_session x = record x {
    status = SessionStatus.closed;
    ended_at = some time;
    updated_at = time;
  }

  abbrev end_row : ReservationRow → ReservationRow
  end_row r = record r { status = terminal; released_at = some time; updated_at = time }

  abbrev closing : List SessionRow → List SessionRow
  closing sessions =
      update_where (has_session reservation SessionStatus.active) close_session sessions

  abbrev closed : List SessionRow → List SessionRow
  closed sessions =
      update_where (has_session reservation SessionStatus.closing) end_session (closing sessions)

  -- the active sessions that a close leaves
  sessions_left :
      (sessions : List SessionRow) (id : String)
      → count (has_session id SessionStatus.active) (closed sessions)
        ≡ count
            (both
              (has_session id SessionStatus.active)
              (λ x. not (has_session reservation SessionStatus.active x)))
            sessions
  sessions_left sessions id = omega (
    arith,
    count-update_same (has_session reservation SessionStatus.closing)
        (has_session id SessionStatus.active) end_session (closing sessions) (λ x h. ground arith),
    count-update_where (has_session reservation SessionStatus.active)
        (has_session id SessionStatus.active) close_session sessions,
    count-none
        (both (has_session reservation SessionStatus.active)
          (λ x. has_session id SessionStatus.active (close_session x)))
        sessions (λ x. ground arith),
    count-split (has_session reservation SessionStatus.active) (has_session id SessionStatus.active)
        sessions,
  )

  -- the active reservations that a close leaves
  rows_left :
      (rows : List ReservationRow) (id : String)
      → count (active_row id) (update_where (active_row reservation) end_row rows)
        ≡ count (both (active_row id) (λ r. not (active_row reservation r))) rows
  rows_left rows id = omega (
    arith,
    count-update_where (active_row reservation) (active_row id) end_row rows,
    count-none (both (active_row reservation) (λ r. active_row id (end_row r))) rows
        (λ r. ground (arith, ends)),
    count-split (active_row reservation) (active_row id) rows,
  )

  pub closed-Matched :
      (rows : List ReservationRow) (sessions : List SessionRow)
      → Matched rows sessions
      → Matched (update_where (active_row reservation) end_row rows) (closed sessions)
  closed-Matched rows sessions x = record {
    keyed = λ id. omega (
      arith,
      x.keyed id,
      count-update_same (active_row reservation) (has_row id) end_row rows (λ r h. refl),
    );
    matched = λ id. elim (str_eq-cases id reservation) [
      | inl (e, _) ↦ omega (
        arith,
        rows_left rows id,
        sessions_left sessions id,
        count-none (both (active_row id) (λ r. not (active_row reservation r))) rows
            (λ r. ground (arith, eq_iff r.id reservation, eq_iff r.id id)),
        count-none
            (both (has_session id SessionStatus.active)
              (λ y. not (has_session reservation SessionStatus.active y)))
            sessions
            (λ y. ground (arith, eq_iff y.reservation_id reservation, eq_iff y.reservation_id id)),
      )
      | inr (n, _) ↦ omega (
        arith,
        rows_left rows id,
        sessions_left sessions id,
        x.matched id,
        count-cong (both (active_row id) (λ r. not (active_row reservation r))) (active_row id) rows
            (λ r. ground (arith, eq_iff r.id reservation, eq_iff r.id id)),
        count-cong
            (both (has_session id SessionStatus.active)
              (λ y. not (has_session reservation SessionStatus.active y)))
            (has_session id SessionStatus.active) sessions
            (λ y. ground (arith, eq_iff y.reservation_id reservation, eq_iff y.reservation_id id)),
      )
    ];
  }

pub close-IsPaired :
    (s : Store) (reservation device : String) (terminal : ReservationStatus) (recycle : Bool)
    (target : DeviceLifecycleStatus) (time : ℕ)
    → reservation_same terminal ReservationStatus.active ≡ false
    → IsPaired s
    → OnOk (λ t. IsPaired t.1) (close_active s reservation device terminal recycle target time)
unfolding close_active
close-IsPaired s reservation device terminal recycle target time na x = >>=-OnOk λ devices e.
    >>=-OnOk λ out f. OnOk-ok _ (
      let (_, _, r) = update_returning-ok _ _ s.reservations _ f in
      rw r (closed-Matched reservation terminal time na s.reservations s.sessions x))

pub create-IsPaired :
    (same : RequestedCapabilities → RequestedCapabilities → Bool) (s : Store)
    (p : CreateReservationParams) (clock : ℕ)
    → IsPaired s
    → OnOk (λ t. IsPaired t.1) (create_pending same s p clock)
unfolding create_pending count
create-IsPaired same s p clock x = >>-OnOk λ _.
    elim (Option-cases (find_row (has_key p.client_id p.idempotency_key) s.reservations)) [
      | inr (r, e) ↦ rw (e, create_pending) (>>-OnOk λ _. OnOk-ok _ x)
      | inl e ↦
          rw (e, create_pending)
            (>>-OnOk λ fresh. >>-OnOk λ _. >>-OnOk λ _. OnOk-ok _ (
              let none_yet =
                count-any (has_row p.id) s.reservations
                  (ground (arith, guard-ok (not (any (has_row p.id) s.reservations)) _ fresh)) in
              record {
                keyed = λ id. ground (
                  arith,
                  count-append (has_row id) s.reservations (pending_row p clock ∷ []),
                  x.keyed id,
                  eq_iff p.id id,
                  none_yet,
                );
                matched = λ id. ground (
                  arith,
                  count-append (active_row id) s.reservations (pending_row p clock ∷ []),
                  x.matched id,
                );
              }))
    ]
