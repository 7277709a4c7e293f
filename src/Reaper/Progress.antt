-- ===== src/Reaper/Progress.antt =====
-- Each sweep of the reaper that succeeds ends one reservation (internal/reservation/service.go).
use alcor_device_farm.Prelude.{
  ℕ, ◌<◌, ◌≡◌, refl, sym, Bool, ◌&&◌, String, none, some, arith, str_eq, subst,
}
use alcor_device_farm.Failure.{Result, ok, err, OnOk, OnOk-ok, >>=-OnOk, >>-OnOk}
use alcor_device_farm.Domain.Lifecycle.{DeviceLifecycleStatus}
use alcor_device_farm.Domain.Reservation.{ReservationStatus}
use alcor_device_farm.Store.{Store, ReservationRow}
use alcor_device_farm.Store.Rows.{
  update_where, count, both, count-update_where, count-none, count-cong, count-find_row, find_row,
  find_row-passes,
}
use alcor_device_farm.Repository.Queries.{is_active, is_pending, is_waiting}
use alcor_device_farm.Repository.Writes.{
  insert_audit, fail_pending_reservation, fail_pending_claim, close_active, is_claim, update_one-ok,
  update_returning-ok,
}
use alcor_device_farm.Reservation.Close.{Outside, Entry, record_entry, close_active_locked}
use alcor_device_farm.Reservation.Release.{committed}
use alcor_device_farm.Reservation.Reap.{reap_tx, reap_stale_tx, reap_orphan_tx}

-- the number of pending and of active reservations
abbrev pub pending_rows : Store → ℕ
pending_rows s = count is_pending s.reservations

abbrev pub active_rows : Store → ℕ
active_rows s = count is_active s.reservations

record_entry-reservations :
    (o : Outside) (s : Store) (id : String) (e : Entry)
    → OnOk (λ t. t.reservations ≡ s.reservations) (record_entry o s id e)
unfolding record_entry insert_audit
record_entry-reservations o s id e = >>=-OnOk λ a _. >>-OnOk λ _. OnOk-ok _ refl

fail_pending_reservation-fewer :
    (s : Store) (id code : String) (time : ℕ)
    → OnOk (λ t. pending_rows t < pending_rows s) (fail_pending_reservation s id code time)
unfolding fail_pending_reservation
fail_pending_reservation-fewer s id code time =
    >>=-OnOk
      λ rows e. OnOk-ok _ (let (one, r) = update_one-ok _ _ s.reservations _ e in rw r (fewer one))
  where
    p : ReservationRow → Bool
    p r = str_eq r.id id && is_waiting r

    f : ReservationRow → ReservationRow
    f r = record r {
      status = ReservationStatus.failed;
      failure_code = some code;
      updated_at = time;
    }

    fewer :
        count p s.reservations ≡ 1
        → count is_pending (update_where p f s.reservations) < count is_pending s.reservations
    fewer one = omega (
      arith,
      count-update_where p is_pending f s.reservations,
      count-none (both p (λ r. is_pending (f r))) s.reservations (λ r. ground arith),
      count-cong (both p is_pending) p s.reservations (λ r. ground arith),
    )

fail_pending_claim-fewer :
    (s : Store) (id device code : String) (time : ℕ)
    → OnOk (λ t. pending_rows t < pending_rows s) (fail_pending_claim s id device code time)
unfolding fail_pending_claim
fail_pending_claim-fewer s id device code time = >>=-OnOk λ devices _.
    >>=-OnOk
      λ rows e. OnOk-ok _ (let (one, r) = update_one-ok _ _ s.reservations _ e in rw r (fewer one))
  where
    f : ReservationRow → ReservationRow
    f r = record r {
      device_id = none;
      status = ReservationStatus.failed;
      failure_code = some code;
      updated_at = time;
    }

    fewer :
        count (is_claim id device) s.reservations ≡ 1
        → count is_pending (update_where (is_claim id device) f s.reservations)
          < count is_pending s.reservations
    fewer one = omega (
      arith,
      count-update_where (is_claim id device) is_pending f s.reservations,
      count-none (both (is_claim id device) (λ r. is_pending (f r))) s.reservations
          (λ r. ground arith),
      count-cong (both (is_claim id device) is_pending) (is_claim id device) s.reservations
          (λ r. ground arith),
    )

pub reap_stale_tx-fewer :
    (o : Outside) (s : Store) (id : String) (timeout grace : ℕ)
    → OnOk (λ t. pending_rows t.1 < pending_rows s) (reap_stale_tx o s id timeout grace)
unfolding reap_stale_tx
reap_stale_tx-fewer o s id timeout grace = >>=-OnOk λ current _. >>-OnOk λ _. >>-OnOk λ _.
    >>=-OnOk λ t fails. >>=-OnOk λ u records. >>=-OnOk λ row _. OnOk-ok _ (
      subst (λ rows. count is_pending rows < pending_rows s)
        (sym ((record_entry-reservations o t id _).apply u records))
        ((fail_pending_reservation-fewer s id "PENDING_TIMEOUT" o.clock).apply t fails))

pub reap_orphan_tx-fewer :
    (o : Outside) (s : Store) (id : String) (grace : ℕ)
    → OnOk (λ t. pending_rows t.1 < pending_rows s) (reap_orphan_tx o s id grace)
unfolding reap_orphan_tx
reap_orphan_tx-fewer o s id grace = >>=-OnOk λ current _. >>-OnOk λ _. >>=-OnOk λ device _.
    >>-OnOk λ _. >>=-OnOk λ t fails. >>=-OnOk λ u records. >>=-OnOk λ row _. OnOk-ok _ (
      subst (λ rows. count is_pending rows < pending_rows s)
        (sym ((record_entry-reservations o t id _).apply u records))
        ((fail_pending_claim-fewer s id device "CLAIM_ABANDONED" o.clock).apply t fails))

close_active-fewer :
    (s : Store) (id device : String) (recycle : Bool) (target : DeviceLifecycleStatus) (time : ℕ)
    → OnOk
        (λ t. active_rows t.1 < active_rows s)
        (close_active s id device ReservationStatus.expired recycle target time)
unfolding close_active
close_active-fewer s id device recycle target time = >>=-OnOk λ devices _. >>=-OnOk λ out e.
    OnOk-ok _
      (let (row, found, r) = update_returning-ok _ _ s.reservations _ e in rw r (fewer found))
  where
    p : ReservationRow → Bool
    p r = str_eq r.id id && is_active r

    f : ReservationRow → ReservationRow
    f r = record r {
      status = ReservationStatus.expired;
      released_at = some time;
      updated_at = time;
    }

    fewer :
        {row : ReservationRow}
        → find_row p s.reservations ≡ some row
        → count is_active (update_where p f s.reservations) < count is_active s.reservations
    fewer {row} found = omega (
      arith,
      count-update_where p is_active f s.reservations,
      count-none (both p (λ r. is_active (f r))) s.reservations (λ r. ground arith),
      count-find_row p is_active s.reservations found
          (ground (arith, find_row-passes p s.reservations found)),
    )

close_active_locked-fewer :
    (o : Outside) (s : Store) (current : ReservationRow) (e : Entry)
    → OnOk
        (λ t. active_rows t.1 < active_rows s)
        (close_active_locked o s current ReservationStatus.expired e)
unfolding close_active_locked
close_active_locked-fewer o s current e = >>=-OnOk λ id h. >>=-OnOk λ a _. >>=-OnOk λ b _.
    >>=-OnOk λ c _. >>=-OnOk λ d _. >>=-OnOk λ f _. >>=-OnOk λ g _. >>=-OnOk λ v _.
      >>=-OnOk λ state _. >>=-OnOk λ m _. >>=-OnOk λ y _. >>=-OnOk λ t closes. >>=-OnOk λ u records.
        OnOk-ok _ (
          subst (λ rows. count is_active rows < active_rows s)
            (sym ((record_entry-reservations o t.1 current.id e).apply u records))
            ((close_active-fewer s current.id id _ _ o.clock).apply t closes))

pub reap_tx-fewer :
    (o : Outside) (s : Store) (id : String) (grace : ℕ)
    → OnOk (λ t. active_rows t.1 < active_rows s) (reap_tx o s id grace)
unfolding reap_tx
reap_tx-fewer o s id grace = >>=-OnOk λ current _.
    >>-OnOk λ _. >>=-OnOk λ expires _. >>-OnOk λ _. close_active_locked-fewer o s current _

-- a committed transaction that succeeds makes the measure smaller, if the transaction does
pub committed-fewer :
    (m : Store → ℕ) (s : Store) (r : Result (ReservationRow × Store)) {row : ReservationRow}
    → OnOk (λ t. m t.1 < m s) r
    → (committed s r).result ≡ ok row
    → m (committed s r).store < m s
committed-fewer m s (ok (a, t)) h e = h.apply (a, t) refl
committed-fewer m s (err x) h e = cc
