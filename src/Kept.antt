-- ===== src/Kept.antt =====
-- An interface between the repository and the components that use it: a property of the store that
-- every update of internal/repository keeps.
use alcor_device_farm.Prelude.{ℕ, ◌≡◌, Bool, false, ◌&&◌, String, some, List, [], ◌∷◌, ◌++◌, str_eq}
use alcor_device_farm.Failure.{OnOk}
use alcor_device_farm.Domain.Lifecycle.{DeviceLifecycleStatus}
use alcor_device_farm.Domain.Reservation.{ReservationStatus, reservation_same}
use alcor_device_farm.Store.{
  Store, DeviceRow, ReservationRow, RequestedCapabilities, AuditRow, OperationRow,
}
use alcor_device_farm.Store.Rows.{find_row}
use alcor_device_farm.Repository.Queries.{is_active}
use alcor_device_farm.Repository.Writes.{
  reserve_for_claim, compensate_claim, fail_pending_claim, fail_pending_reservation, cancel_pending,
  extend, close_active, create_pending, CreateReservationParams, activate_claimed,
}

pub record Kept (I : Store → Type 0) : Type 0 where
  pub by_reserve :
      (s : Store) (reservation device : String) (time : ℕ)
      → I s
      → OnOk I (reserve_for_claim s reservation device time)
  pub by_compensate :
      (s : Store) (reservation device code : String) (terminal : Bool) (time : ℕ)
      → I s
      → OnOk I (compensate_claim s reservation device code terminal time)
  pub by_fail_claim :
      (s : Store) (reservation device code : String) (time : ℕ)
      → I s
      → OnOk I (fail_pending_claim s reservation device code time)
  pub by_fail_pending :
      (s : Store) (reservation code : String) (time : ℕ)
      → I s
      → OnOk I (fail_pending_reservation s reservation code time)
  pub by_cancel :
      (s : Store) (reservation code : String) (time : ℕ)
      → I s
      → OnOk (λ t. I t.1) (cancel_pending s reservation code time)
  pub by_extend :
      (s : Store) (reservation : String) (expires clock : ℕ)
      → I s
      → OnOk (λ t. I t.1) (extend s reservation expires clock)
  pub by_close :
      (s : Store) (reservation device : String) (terminal : ReservationStatus) (recycle : Bool)
      (target : DeviceLifecycleStatus) (time : ℕ) {row : ReservationRow}
      → find_row (λ r. str_eq r.id reservation && is_active r) s.reservations ≡ some row
      → row.device_id ≡ some device
      → reservation_same terminal ReservationStatus.pending ≡ false
      → reservation_same terminal ReservationStatus.active ≡ false
      → I s
      → OnOk (λ t. I t.1) (close_active s reservation device terminal recycle target time)
  pub by_create :
      (same : RequestedCapabilities → RequestedCapabilities → Bool) (s : Store)
      (p : CreateReservationParams) (clock : ℕ)
      → I s
      → OnOk (λ t. I t.1) (create_pending same s p clock)
  pub by_activate :
      (s : Store) (reservation device session : String) (time : ℕ)
      → I s
      → OnOk (λ t. I t.2) (activate_claimed s reservation device session time)
  -- what another component makes of the devices
  pub by_devices : (s : Store) (devices : List DeviceRow) → I s → I (record s { devices = devices })
  pub by_audit : (s : Store) (audits : List AuditRow) → I s → I (record s { audits = audits })
  pub by_operation :
      (s : Store) (p : OperationRow) → I s → I (record s { operations = s.operations ++ p ∷ [] })
