-- ===== src/Repository/Writes/Sessions.antt =====
-- internal/repository/reservation.go: the activation of a claim, and the end of an active
-- reservation, each with its session.
use alcor_device_farm.Prelude.{
  ℕ, ◌+◌, ◌*◌, Bool, true, false, ◌&&◌, not, String, none, some, [], ◌∷◌, ◌++◌, str_eq, ◌==◌, any,
  if◌then◌else◌,
}
use alcor_device_farm.Failure.{
  Result, ok, ◌>>=◌, ◌>>◌, guard, not_found, capacity_unavailable, unique_violation,
}
use alcor_device_farm.Domain.Lifecycle.{DeviceLifecycleStatus, lifecycle_same}
use alcor_device_farm.Domain.Reservation.{ReservationStatus}
use alcor_device_farm.Domain.Session.{SessionStatus, session_same}
use alcor_device_farm.Store.{Store, ReservationRow, SessionRow, second}
use alcor_device_farm.Store.Rows.{update_where, count}
use alcor_device_farm.Repository.Queries.{is_active, names_device}
use alcor_device_farm.Repository.Writes.Updates.{update_one, update_returning}
use alcor_device_farm.Repository.Writes.Claims.{set_lifecycle, has_lifecycle, is_claim}

-- the row of device_sessions that an activation inserts
abbrev pub new_session : String → String → String → ℕ → SessionRow
new_session id reservation device time = record {
  id = id;
  reservation_id = reservation;
  device_id = device;
  status = SessionStatus.active;
  started_at = some time;
  ended_at = none;
  created_at = time;
  updated_at = time;
}

-- ActivateClaimed. The index uq_device_reservations_active_device and the keys of device_sessions
-- refuse a second active reservation of the device and a second session of the reservation.
unfoldable pub activate_claimed :
    Store → String → String → String → ℕ → Result (ReservationRow × SessionRow × Store)
activate_claimed s reservation device session time = do
  devices ←
      update_one (has_lifecycle device DeviceLifecycleStatus.reserved)
        (set_lifecycle DeviceLifecycleStatus.busy time) s.devices capacity_unavailable
  (row, reservations) ←
      update_returning (is_claim reservation device)
        (λ r. record r {
          device_id = some device;
          status = ReservationStatus.active;
          starts_at = some time;
          expires_at = some (time + r.lease_seconds * second);
          updated_at = time;
        })
        s.reservations not_found
  guard (count (λ r. is_active r && names_device device r.device_id) s.reservations == 0)
      unique_violation
  guard (not (any (λ x. str_eq x.id session) s.sessions)) unique_violation
  guard (not (any (λ x. str_eq x.reservation_id reservation) s.sessions)) unique_violation
  let opened = new_session session reservation device time
  ok (
    row,
    opened,
    record s {
      devices = devices;
      reservations = reservations;
      sessions = s.sessions ++ opened ∷ [];
    },
  )

-- the devices that CloseActive may touch
abbrev pub is_releasable : DeviceLifecycleStatus → Bool
is_releasable DeviceLifecycleStatus.ready = true
is_releasable DeviceLifecycleStatus.busy = true
is_releasable DeviceLifecycleStatus.reserved = true
is_releasable DeviceLifecycleStatus.recycling = true
is_releasable DeviceLifecycleStatus.quarantined = true
is_releasable _ = false

-- the CASE of CloseActive
unfoldable pub released_lifecycle :
    Bool → DeviceLifecycleStatus → DeviceLifecycleStatus → DeviceLifecycleStatus
released_lifecycle recycle target now =
    if lifecycle_same now DeviceLifecycleStatus.quarantined
    then now
    else if recycle
    then DeviceLifecycleStatus.recycling
    else if lifecycle_same target DeviceLifecycleStatus.quarantined
    then DeviceLifecycleStatus.quarantined
    else DeviceLifecycleStatus.ready

abbrev pub has_session : String → SessionStatus → SessionRow → Bool
has_session reservation status x =
    str_eq x.reservation_id reservation && session_same x.status status

-- CloseActive
unfoldable pub close_active :
    Store
    → String
    → String
    → ReservationStatus
    → Bool
    → DeviceLifecycleStatus
    → ℕ
    → Result (ReservationRow × Store)
unfolding released_lifecycle
close_active s reservation device terminal recycle target time = do
  let closing =
      update_where (has_session reservation SessionStatus.active)
        (λ x. record x { status = SessionStatus.closing; updated_at = time }) s.sessions
  let closed =
      update_where (has_session reservation SessionStatus.closing)
        (λ x. record x { status = SessionStatus.closed; ended_at = some time; updated_at = time })
        closing
  devices ←
      update_one (λ d. str_eq d.id device && is_releasable d.lifecycle_status)
        (λ d. record d {
          lifecycle_status = released_lifecycle recycle target d.lifecycle_status;
          lifecycle_mode = if recycle then "rebuild" else d.lifecycle_mode;
          updated_at = time;
        })
        s.devices not_found
  (row, reservations) ←
      update_returning (λ r. str_eq r.id reservation && is_active r)
        (λ r. record r { status = terminal; released_at = some time; updated_at = time })
        s.reservations not_found
  ok (row, record s { devices = devices; reservations = reservations; sessions = closed })
