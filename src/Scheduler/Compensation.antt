-- ===== src/Scheduler/Compensation.antt =====
-- A claim that is compensated at once: the compensation succeeds, and gives the device back
-- (ReserveForClaim and CompensateClaim of internal/repository/reservation.go).
use alcor_device_farm.Prelude.{
  ℕ, ◌≤◌, ◌<◌, ◌≡◌, refl, Bool, ◌&&◌, String, none, some, List, arith, str_eq, eq_iff,
  if◌then◌else◌,
}
use alcor_device_farm.Failure.{ok, ◌>>=◌, OnOk, OnOk-ok, >>=-OnOk, not_found}
use alcor_device_farm.Domain.Lifecycle.{DeviceLifecycleStatus}
use alcor_device_farm.Domain.Health.{HealthStatus, health_same}
use alcor_device_farm.Domain.Reservation.{ReservationStatus}
use alcor_device_farm.Store.{Store, DeviceRow, ReservationRow}
use alcor_device_farm.Store.Rows.{
  update_where, count, both, count-update_where, count-none, count-cong, count_mono,
  count-update_same,
}
use alcor_device_farm.Repository.Queries.{is_waiting, is_free, is_ready}
use alcor_device_farm.Repository.Writes.{
  reserve_for_claim, compensate_claim, update_one-ok, update_one-applies, has_lifecycle,
  set_lifecycle, is_claim,
}
use alcor_device_farm.Paired.{has_row}

abbrev pub has_id : String → DeviceRow → Bool
has_id device d = str_eq d.id device

abbrev pub is_ready_device : String → DeviceRow → Bool
is_ready_device device d = str_eq d.id device && is_ready d

module _ (reservation device code : String) (terminal : Bool) (time later : ℕ) where
  abbrev free_device : DeviceRow → Bool
  free_device d = str_eq d.id device && is_free d

  abbrev reserved_rows : List DeviceRow → List DeviceRow
  reserved_rows = update_where free_device (set_lifecycle DeviceLifecycleStatus.reserved time)

  abbrev is_reserved : DeviceRow → Bool
  is_reserved = has_lifecycle device DeviceLifecycleStatus.reserved

  abbrev fit : DeviceRow → Bool
  fit d = is_reserved d && health_same d.health_status HealthStatus.healthy

  abbrev recycle : DeviceRow → DeviceRow
  recycle = set_lifecycle DeviceLifecycleStatus.recycling later

  abbrev recycled : DeviceRow → Bool
  recycled d =
      has_lifecycle device DeviceLifecycleStatus.recycling d
      && health_same d.health_status HealthStatus.healthy

  abbrev restore : DeviceRow → DeviceRow
  restore = set_lifecycle DeviceLifecycleStatus.ready later

  module _ (rows : List DeviceRow) (free : count free_device rows ≡ 1)
      (keyed : count (has_id device) rows ≤ 1) where
    same_ids : count (has_id device) (reserved_rows rows) ≡ count (has_id device) rows
    same_ids = count-update_same free_device (has_id device) _ rows (λ d h. refl)

    -- the device is reserved, and healthy
    one_fit : count fit (reserved_rows rows) ≡ 1
    one_fit = omega (
      arith,
      count-update_where free_device fit (set_lifecycle DeviceLifecycleStatus.reserved time) rows,
      count-cong (both free_device (λ d. fit (set_lifecycle DeviceLifecycleStatus.reserved time d)))
          free_device rows (λ d. ground arith),
      count_mono fit (has_id device) (reserved_rows rows) (λ d h. ground arith),
      count-none (both free_device fit) rows (λ d. ground arith),
      same_ids,
    )

    one_reserved : count is_reserved (reserved_rows rows) ≡ 1
    one_reserved = omega (
      arith,
      one_fit,
      same_ids,
      count_mono is_reserved (has_id device) (reserved_rows rows) (λ d h. ground arith),
      count_mono fit is_reserved (reserved_rows rows) (λ d h. ground arith),
    )

    one_recycled : count recycled (update_where is_reserved recycle (reserved_rows rows)) ≡ 1
    one_recycled = omega (
      arith,
      one_fit,
      same_ids,
      count-update_where is_reserved recycled recycle (reserved_rows rows),
      count-cong (both is_reserved (λ d. recycled (recycle d))) fit (reserved_rows rows)
          (λ d. ground arith),
      count_mono recycled (has_id device) (update_where is_reserved recycle (reserved_rows rows))
          (λ d h. ground arith),
      count-update_same is_reserved (has_id device) recycle (reserved_rows rows) (λ d h. refl),
      count-none (both is_reserved recycled) (reserved_rows rows) (λ d. ground arith),
    )

    abbrev restored_rows : List DeviceRow
    restored_rows =
        update_where recycled restore (update_where is_reserved recycle (reserved_rows rows))

    one_ready : 0 < count (is_ready_device device) restored_rows
    one_ready = omega (
      arith,
      one_recycled,
      count-update_where recycled (is_ready_device device) restore
          (update_where is_reserved recycle (reserved_rows rows)),
      count-cong (both recycled (λ d. is_ready_device device (restore d))) recycled
          (update_where is_reserved recycle (reserved_rows rows)) (λ d. ground arith),
      count-none (both recycled (is_ready_device device))
          (update_where is_reserved recycle (reserved_rows rows)) (λ d. ground arith),
    )

  abbrev waiting : ReservationRow → Bool
  waiting r = str_eq r.id reservation && is_waiting r

  abbrev take : ReservationRow → ReservationRow
  take r = record r { device_id = some device; failure_code = none; updated_at = time }

  one_claim :
      (rows : List ReservationRow)
      → count waiting rows ≡ 1
      → count (has_row reservation) rows ≤ 1
      → count (is_claim reservation device) (update_where waiting take rows) ≡ 1
  one_claim rows one keyed = omega (
    arith,
    count-update_where waiting (is_claim reservation device) take rows,
    count-cong (both waiting (λ r. is_claim reservation device (take r))) waiting rows
        (λ r. ground (arith, eq_iff device device)),
    count_mono (is_claim reservation device) (has_row reservation) (update_where waiting take rows)
        (λ r h. ground arith),
    count-update_same waiting (has_row reservation) take rows (λ r h. refl),
    count-none (both waiting (is_claim reservation device)) rows (λ r. ground arith),
  )

-- A store in which the compensation succeeds and leaves the device ready.
pub record IsCompensated (s : Store) (reservation device code : String) (terminal : Bool) (time : ℕ)
    : Type 0 where
  pub back : Store
  pub succeeds : compensate_claim s reservation device code terminal time ≡ ok back
  pub is_back : 0 < count (is_ready_device device) back.devices

module _ (s : Store) (reservation device code : String) (terminal : Bool) (time later : ℕ) where
  abbrev give : ReservationRow → ReservationRow
  give r = record r {
    device_id = none;
    status = if terminal then ReservationStatus.failed else ReservationStatus.pending;
    failure_code = some code;
    updated_at = later;
  }

  abbrev taken : Store
  taken = record s {
    devices = reserved_rows reservation device code terminal time later s.devices;
    reservations =
        update_where (waiting reservation device code terminal time later)
          (take reservation device code terminal time later) s.reservations;
  }

  compensates :
      count (free_device reservation device code terminal time later) s.devices ≡ 1
      → count (has_id device) s.devices ≤ 1
      → count (waiting reservation device code terminal time later) s.reservations ≡ 1
      → count (has_row reservation) s.reservations ≤ 1
      → IsCompensated taken reservation device code terminal later
  unfolding compensate_claim ◌>>=◌
  compensates free keyed one rows =
      let row = one_claim reservation device code terminal time later s.reservations one rows in
      let first = one_reserved reservation device code terminal time later s.devices free keyed in
      let second = one_recycled reservation device code terminal time later s.devices free keyed in
      record {
        back = record taken {
          devices = restored_rows reservation device code terminal time later s.devices free keyed;
          reservations = update_where (is_claim reservation device) give taken.reservations;
        };
        succeeds =
            rw
              (
                compensate_claim,
                update_one-applies _ _ taken.devices not_found first,
                update_one-applies _ _ _ not_found second,
                update_one-applies _ give taken.reservations not_found row,
              )
              refl;
        is_back = one_ready reservation device code terminal time later s.devices free keyed;
      }

-- A compensation right after a claim, of a store with no device id and no reservation id twice,
-- succeeds and leaves the device ready.
pub reserve_for_claim-IsCompensated :
    (s : Store) (reservation device code : String) (terminal : Bool) (time later : ℕ)
    → count (has_id device) s.devices ≤ 1
    → count (has_row reservation) s.reservations ≤ 1
    → OnOk
        (λ t. IsCompensated t reservation device code terminal later)
        (reserve_for_claim s reservation device time)
unfolding reserve_for_claim
reserve_for_claim-IsCompensated s reservation device code terminal time later keyed rows =
    >>=-OnOk λ devices e. >>=-OnOk λ reservations f. OnOk-ok _ (
      let (one, d) = update_one-ok _ _ s.devices _ e in
      let (row, r) = update_one-ok _ _ s.reservations _ f in
      rw (d, r) (compensates s reservation device code terminal time later one keyed row rows))
