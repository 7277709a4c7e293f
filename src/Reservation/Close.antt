-- ===== src/Reservation/Close.antt =====
-- internal/reservation/service.go: closeActiveLocked, which ends an active reservation and says
-- what becomes of its device.
use alcor_device_farm.Prelude.{
  ℕ, Bool, false, ◌&&◌, not, String, Option, none, some, str_eq, if◌then◌else◌,
}
use alcor_device_farm.Audit.{Actor}
use alcor_device_farm.Failure.{
  Error, Result, ok, err, ◌>>=◌, require, checked, from_domain, not_found, conflict, no_id,
  idempotency_conflict,
}
use alcor_device_farm.Domain.Lifecycle.{DeviceLifecycleStatus, lifecycle_same}
use alcor_device_farm.Domain.Health.{HealthStatus, health_same}
use alcor_device_farm.Domain.Device.{restore_device, transition_device, Device}
use alcor_device_farm.Domain.Reservation.{
  ReservationStatus, restore_reservation, transition_reservation,
}
use alcor_device_farm.Domain.Session.{SessionStatus, restore_session, transition_session}
use alcor_device_farm.Store.{Store, DeviceRow, ReservationRow}
use alcor_device_farm.Repository.Queries.{get_device}
use alcor_device_farm.Repository.Policies.{PoolPolicy, load_pool_policy_for_release}
use alcor_device_farm.Repository.Operations.{get_session}
use alcor_device_farm.Repository.Writes.{close_active, insert_audit}

-- the requests of which requestHash takes a hash
pub data HashedRequest : Type 0 where
  extension : String → ℕ → HashedRequest
  release : String → String → Bool → HashedRequest

-- What a transaction gets from outside: the database clock, the generated id, the hash of a request
-- (JSON and SHA-256), and the two functions of internal/sensitive.
pub record Outside : Type 0 where
  pub clock : ℕ
  pub id : Option String
  pub hash : HashedRequest → String
  pub redact : String → String
  pub is_sensitive : String → Bool

-- what is recorded about a call
pub record Entry : Type 0 where
  pub actor : Actor
  pub action : String
  pub request_id : String
  pub reason : String

-- translateRepositoryError; the errors of the two packages that mean the same are one here.
unfoldable pub translate_error : Error → Error
translate_error idempotency_conflict = conflict
translate_error e = e

unfoldable pub translate : {A : Type 0} → Result A → Result A
unfolding translate_error
translate (ok a) = ok a
translate (err e) = err (translate_error e)

-- newID and InsertAudit
unfoldable pub record_entry : Outside → Store → String → Entry → Result Store
record_entry o s reservation e = do
  id ← require o.id no_id
  insert_audit o.redact s (record {
    id = id;
    actor_type = e.actor.kind;
    actor_id = e.actor.id;
    action = e.action;
    resource_id = reservation;
    request_id = e.request_id;
    reason = e.reason;
  })

-- Is the device rebuilt before its next use?
unfoldable pub recycles : Option PoolPolicy → DeviceRow → Bool
recycles none d = false
recycles (some policy) d =
    policy.fresh_vm_per_run
    && str_eq d.platform "android"
    && str_eq d.device_kind "emulator"
    && not (lifecycle_same d.lifecycle_status DeviceLifecycleStatus.quarantined)
    && health_same d.health_status HealthStatus.healthy

-- the lifecycle that the device gets
unfoldable pub target_of : Bool → DeviceRow → DeviceLifecycleStatus
target_of recycle d =
    if not (health_same d.health_status HealthStatus.healthy)
    then DeviceLifecycleStatus.quarantined
    else if recycle
    then DeviceLifecycleStatus.recycling
    else DeviceLifecycleStatus.ready

abbrev pub target_reason : Bool → DeviceRow → String
target_reason recycle d =
    if not (health_same d.health_status HealthStatus.healthy)
    then "reservation released; unhealthy device quarantined"
    else if recycle
    then "reservation released; pool requires a fresh VM for the next run"
    else "reservation released; device data retained"

-- A device that is quarantined, or already at the target, makes no transition.
abbrev pub moved_to : Device → DeviceLifecycleStatus → String → ℕ → Result Device
moved_to state target reason time =
    if not (lifecycle_same state.lifecycle.status DeviceLifecycleStatus.quarantined)
      && not (lifecycle_same state.lifecycle.status target)
    then checked (transition_device state target reason time)
    else ok state

-- closeActiveLocked
unfoldable pub close_active_locked :
    Outside → Store → ReservationRow → ReservationStatus → Entry → Result (ReservationRow × Store)
unfolding recycles target_of record_entry
close_active_locked o s current terminal e = do
  id ← require current.device_id conflict
  held ← from_domain (restore_reservation current.id current.status)
  _ ← checked (transition_reservation held terminal e.reason o.clock)
  session ← require (get_session s current.id) not_found
  opened ← from_domain (restore_session session.id session.status)
  closing ← checked (transition_session opened SessionStatus.closing e.reason o.clock)
  _ ← checked (transition_session closing SessionStatus.closed e.reason o.clock)
  device ← require (get_device s id) not_found
  state ← from_domain (restore_device device.id device.lifecycle_status device.health_status)
  let recycle = recycles (load_pool_policy_for_release s device.host_id device.id) device
  let target = target_of recycle device
  _ ← moved_to state target (target_reason recycle device) o.clock
  _ ← require o.id no_id
  (closed, t) ← close_active s current.id id terminal recycle target o.clock
  u ← record_entry o t current.id e
  ok (closed, u)
