-- ===== src/Repository/Writes/Claims.antt =====
-- internal/repository/reservation.go: the updates of a claim, from the reservation of a device to
-- its compensation.
use alcor_device_farm.Prelude.{ℕ, Bool, ◌&&◌, not, String, none, some, str_eq, if◌then◌else◌}
use alcor_device_farm.Failure.{Result, ok, ◌>>=◌, not_found, capacity_unavailable}
use alcor_device_farm.Domain.Lifecycle.{DeviceLifecycleStatus, lifecycle_same}
use alcor_device_farm.Domain.Health.{HealthStatus, health_same}
use alcor_device_farm.Domain.Reservation.{ReservationStatus}
use alcor_device_farm.Store.{Store, DeviceRow, ReservationRow}
use alcor_device_farm.Repository.Queries.{is_pending, is_waiting, is_free, names_device}
use alcor_device_farm.Repository.Writes.Updates.{update_one}

abbrev pub set_lifecycle : DeviceLifecycleStatus → ℕ → DeviceRow → DeviceRow
set_lifecycle status time d = record d { lifecycle_status = status; updated_at = time }

abbrev pub has_lifecycle : String → DeviceLifecycleStatus → DeviceRow → Bool
has_lifecycle id status d = str_eq d.id id && lifecycle_same d.lifecycle_status status

-- a pending reservation that holds the device
abbrev pub is_claim : String → String → ReservationRow → Bool
is_claim id device r = str_eq r.id id && is_pending r && names_device device r.device_id

-- ReserveForClaim
unfoldable pub reserve_for_claim : Store → String → String → ℕ → Result Store
reserve_for_claim s reservation device time = do
  devices ←
      update_one (λ d. str_eq d.id device && is_free d)
        (set_lifecycle DeviceLifecycleStatus.reserved time) s.devices capacity_unavailable
  reservations ←
      update_one (λ r. str_eq r.id reservation && is_waiting r)
        (λ r. record r { device_id = some device; failure_code = none; updated_at = time })
        s.reservations not_found
  ok (record s { devices = devices; reservations = reservations })

-- CompensateClaim
unfoldable pub compensate_claim : Store → String → String → String → Bool → ℕ → Result Store
compensate_claim s reservation device code terminal time = do
  recycled ←
      update_one (has_lifecycle device DeviceLifecycleStatus.reserved)
        (set_lifecycle DeviceLifecycleStatus.recycling time) s.devices not_found
  restored ←
      update_one
        (λ d.
          has_lifecycle device DeviceLifecycleStatus.recycling d
          && health_same d.health_status HealthStatus.healthy)
        (set_lifecycle DeviceLifecycleStatus.ready time) recycled not_found
  reservations ←
      update_one (is_claim reservation device)
        (λ r. record r {
          device_id = none;
          status = if terminal then ReservationStatus.failed else ReservationStatus.pending;
          failure_code = some code;
          updated_at = time;
        })
        s.reservations not_found
  ok (record s { devices = restored; reservations = reservations })

-- FailPendingClaim
unfoldable pub fail_pending_claim : Store → String → String → String → ℕ → Result Store
fail_pending_claim s reservation device code time = do
  devices ←
      update_one (has_lifecycle device DeviceLifecycleStatus.reserved)
        (λ d. record d {
          lifecycle_status =
              if not (lifecycle_same d.lifecycle_status DeviceLifecycleStatus.reserved)
              then d.lifecycle_status
              else if health_same d.health_status HealthStatus.healthy
              then DeviceLifecycleStatus.ready
              else DeviceLifecycleStatus.quarantined;
          updated_at = time;
        })
        s.devices not_found
  reservations ←
      update_one (is_claim reservation device)
        (λ r. record r {
          device_id = none;
          status = ReservationStatus.failed;
          failure_code = some code;
          updated_at = time;
        })
        s.reservations not_found
  ok (record s { devices = devices; reservations = reservations })
