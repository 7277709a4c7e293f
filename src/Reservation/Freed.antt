-- ===== src/Reservation/Freed.antt =====
-- What the end of an active reservation leaves of it and of its device
-- (internal/reservation/service.go, closeActiveLocked).
use alcor_device_farm.Prelude.{ℕ, ◌≡◌, Bool, ◌&&◌, ◌||◌, String, some, str_eq}
use alcor_device_farm.Domain.Lifecycle.{DeviceLifecycleStatus, lifecycle_same}
use alcor_device_farm.Domain.Reservation.{ReservationStatus}
use alcor_device_farm.Store.{Store, DeviceRow, ReservationRow}
use alcor_device_farm.Store.Rows.{count}

-- a row of the device that is reserved or busy
abbrev pub is_allocated : String → DeviceRow → Bool
is_allocated device d =
    str_eq d.id device
    && (lifecycle_same d.lifecycle_status DeviceLifecycleStatus.reserved
        || lifecycle_same d.lifecycle_status DeviceLifecycleStatus.busy)

-- The reservation that is returned has ended at the time, and the device is not allocated.
pub record IsFreed (device : String) (terminal : ReservationStatus) (time : ℕ)
    (row : ReservationRow) (t : Store) : Type 0 where
  pub status : row.status ≡ terminal
  pub released_at : row.released_at ≡ some time
  pub free : count (is_allocated device) t.devices ≡ 0
