-- ===== src/System/Tests.antt =====
-- The theorems on the scheduler, the reservation service and the whole system at concrete stores.
use alcor_device_farm.Prelude.{
  ℕ, suc, ◌≤◌, ◌≡◌, refl, true, false, String, none, some, List, [], ◌∷◌, arith, map,
}
use alcor_device_farm.Failure.{
  ok, err, ◌>>=◌, require, not_found, no_id, OnOk, checked, from_domain, guard,
}
use alcor_device_farm.Domain.Lifecycle.{DeviceLifecycleStatus, valid_lifecycle}
use alcor_device_farm.Domain.Health.{HealthStatus, valid_health}
use alcor_device_farm.Domain.Reservation.{
  ReservationStatus, restore_reservation, transition_reservation, valid_reservation,
}
use alcor_device_farm.Domain.Session.{SessionStatus}
use alcor_device_farm.Domain.Host.{HostStatus}
use alcor_device_farm.Domain.Pool.{PoolStatus}
use alcor_device_farm.Store.{Store, DeviceRow, ReservationRow}
use alcor_device_farm.Store.Rows.{count, find_row, least, select, update_where}
use alcor_device_farm.Repository.Queries.{
  get_reservation, lock_next_allocatable_pending, is_allocatable, is_candidate,
  lock_matching_device,
}
use alcor_device_farm.Repository.Writes.{
  CreateReservationParams, satisfies_checks, create_pending, new_session, has_session,
  reserve_for_claim, pending_row, cancel_pending, insert_audit, update_one, update_returning,
}
use alcor_device_farm.Unshared.{occupies}
use alcor_device_farm.Scheduler.Compensation.{has_id}
use alcor_device_farm.Paired.{has_row, active_row}
use alcor_device_farm.Scheduler
use alcor_device_farm.Scheduler.{run_once}
use alcor_device_farm.Scheduler.Order.{IsFirst, lock_next-IsFirst}
use alcor_device_farm.Scheduler.Compensation.{IsCompensated, reserve_for_claim-IsCompensated}
use alcor_device_farm.Scheduler.Recovery.{unreleased, run_once-stf_released}
use alcor_device_farm.Reservation.Close.{Outside, record_entry}
use alcor_device_farm.Reservation.Extend.{extend_current}
use alcor_device_farm.Reservation.Lease.{Extended, extend_current-Extended}
use alcor_device_farm.Reservation.Release.{
  ReleaseCall, release_tx, release_operation, cancel, release_current,
}
use alcor_device_farm.Reaper
use alcor_device_farm.Reaper.{drain}
use alcor_device_farm.Reaper.Progress.{active_rows, pending_rows}
use alcor_device_farm.Reaper.Termination.{HasEnded, reaper-HasEnded}
use alcor_device_farm.System.Creation.{create_pending-again}
use alcor_device_farm.System.{Step, creates, claims, releases, reaps_stale, others, run}
use alcor_device_farm.System.Occupancy.{run-occupied_once}
use alcor_device_farm.System.Sessions.{run-paired}
use alcor_device_farm.System.Replay.{release_tx-replay}
use alcor_device_farm.Repository.Policies.{active_on_host, lock_pool_policy_for_host}
use alcor_device_farm.Domain.Device.{restore_device, transition_device}
use alcor_device_farm.Text.{is_identifier, trim_space}
use alcor_device_farm.Domain.Machine.{new_state_machine, record_rejected, transition}
use alcor_device_farm.Repository.Operations.{begin_operation}

abbrev phone : DeviceRow
phone = record {
  id = "device_0000000001";
  host_id = "host_000000000001";
  platform = "android";
  device_kind = "emulator";
  lifecycle_mode = "reuse";
  lifecycle_status = DeviceLifecycleStatus.ready;
  health_status = HealthStatus.healthy;
  serial = "emulator-5554";
  stf_serial = "10.0.0.1:5555";
  api_level = 34;
  capabilities = [];
  created_at = 1;
  updated_at = 1;
}

-- one device on one host, in one pool, and no reservation
abbrev farm : Store
farm = record {
  devices = phone ∷ [];
  reservations = [];
  sessions = [];
  hosts =
      record {
        id = "host_000000000001";
        address = "10.0.0.1";
        status = HostStatus.online;
        draining = false;
      }
      ∷ [];
  pools =
      record {
        id = "pool_000000000001";
        name = "android-10.0.0.1";
        platform = "android";
        status = PoolStatus.active;
        max_lease_seconds = 3600;
        max_concurrency = 2;
        fresh_vm_per_run = false;
        created_at = 1;
      }
      ∷ [];
  members =
      record {
        pool_id = "pool_000000000001";
        device_id = "device_0000000001";
        enabled = true;
        created_at = 1;
      }
      ∷ [];
  operations = [];
  audits = [];
}

abbrev wanted : CreateReservationParams
wanted = record {
  id = "reservation_0001";
  client_id = "service";
  pool_id = "pool_000000000001";
  owner_type = "manual";
  owner_id = "someone";
  requested_capabilities = record {
    target_device = none;
    platform_name = none;
    min_sdk_level = 30;
    schedulable = [];
  };
  lease_seconds = 600;
  idempotency_key = "key_00000001";
}

-- the farm with a reservation that waits
abbrev busy_farm : Store
busy_farm = record farm { reservations = pending_row wanted 5 ∷ [] }

abbrev round : Scheduler.Outside
round = record {
  asked_at = 10;
  claimed_at = 11;
  compensated_at = 14;
  activated_at = 13;
  utc = 12;
  locked_reservation = λ id. false;
  locked_device = λ id. false;
  has_claimer = true;
  claim_failure = none;
  session_id = none;
}

abbrev around : Outside
around = record {
  clock = 20;
  id = some "audit_0000000001";
  hash = λ r. "hash";
  redact = λ s. s;
  is_sensitive = λ s. false;
}

abbrev release_call : ReleaseCall
release_call = record {
  actor = record { kind = "service"; id = "service"; client_id = "service" };
  key = "key_00000002";
  id = "reservation_0001";
  request_id = "request_1";
  reason = "not needed";
  force = false;
}

abbrev some_steps : List Step
some_steps =
    creates (λ a b. true) wanted 5
    ∷ claims round
    ∷ releases around release_call
    ∷ others
        (map {A = DeviceRow} (λ d. record d { lifecycle_status = DeviceLifecycleStatus.ready }))
    ∷ reaps_stale around "reservation_0001" 1 0
    ∷ []

ids_differ : (d : String) → count (has_id d) farm.devices ≤ 1
unfolding count
ids_differ d = ground arith

run-occupied_once_example :
    count (occupies "device_0000000001") (run farm some_steps).reservations ≤ 1
run-occupied_once_example = run-occupied_once farm some_steps "device_0000000001" refl

run-paired_example :
    (count (has_row "reservation_0001") (run farm some_steps).reservations ≤ 1)
    × (count (active_row "reservation_0001") (run farm some_steps).reservations
        ≡ count
            (has_session "reservation_0001" SessionStatus.active)
            (run farm some_steps).sessions)
run-paired_example = run-paired farm some_steps "reservation_0001" refl refl

lock_next-IsFirst_example :
    IsFirst busy_farm 10 (λ id. false) (lock_next_allocatable_pending busy_farm 10 (λ id. false))
lock_next-IsFirst_example = lock_next-IsFirst busy_farm 10 (λ id. false)

one_row : count (has_row "reservation_0001") busy_farm.reservations ≤ 1
unfolding count
one_row = omega arith

reserve_for_claim-IsCompensated_example :
    OnOk
      (λ t. IsCompensated t "reservation_0001" "device_0000000001" "STF_CLAIM_FAILED" false 14)
      (reserve_for_claim busy_farm "reservation_0001" "device_0000000001" 11)
reserve_for_claim-IsCompensated_example =
    reserve_for_claim-IsCompensated busy_farm "reservation_0001" "device_0000000001"
      "STF_CLAIM_FAILED" false 11 14 (ids_differ "device_0000000001") one_row

round_fails : (run_once busy_farm round).result ≡ err no_id
unfolding run_once Scheduler.claim ◌>>=◌ lock_next_allocatable_pending least select is_candidate
    is_allocatable require lock_matching_device lock_pool_policy_for_host guard count from_domain
    restore_device is_identifier checked transition_device valid_health valid_lifecycle
    new_state_machine record_rejected transition active_on_host reserve_for_claim update_one
    Scheduler.proceed Scheduler.start find_row update_where trim_space
round_fails = refl

run_once-stf_released_example : unreleased [] (run_once busy_farm round).stf ≡ []
run_once-stf_released_example = run_once-stf_released busy_farm round no_id round_fails

-- the farm with a reservation that has the device
abbrev leased_farm : Store
leased_farm = record farm {
  devices = record phone { lifecycle_status = DeviceLifecycleStatus.busy } ∷ [];
  sessions = new_session "session_00000001" "reservation_0001" "device_0000000001" 10 ∷ [];
  reservations =
      record (pending_row wanted 5) {
        status = ReservationStatus.active;
        device_id = some "device_0000000001";
        starts_at = some 10;
        expires_at = some 600000010;
      }
      ∷ [];
}

extend_current-Extended_example :
    OnOk
      (λ t. Extended around leased_farm "reservation_0001" 60 t.0)
      (extend_current around leased_farm "reservation_0001" 60)
extend_current-Extended_example = extend_current-Extended around leased_farm "reservation_0001" 60

abbrev cancelled : ReservationRow
cancelled = record (pending_row wanted 5) {
  status = ReservationStatus.failed;
  failure_code = some "RESERVATION_CANCELED";
  updated_at = 20;
}

abbrev cancelled_farm : Store
cancelled_farm = record busy_farm {
  reservations = cancelled ∷ [];
  operations = release_operation around release_call ∷ [];
  audits =
      record {
        id = "audit_0000000001";
        actor_type = "service";
        actor_id = "service";
        action = "cancel_pending_device_reservation";
        resource_id = "reservation_0001";
        request_id = "request_1";
        reason = "not needed";
      }
      ∷ [];
}

cancels : release_tx around busy_farm release_call ≡ ok (cancelled, cancelled_farm)
unfolding release_tx ◌>>=◌ begin_operation find_row require get_reservation guard from_domain
    restore_reservation is_identifier checked transition_reservation trim_space cancel_pending
    update_returning record_entry insert_audit update_where valid_reservation new_state_machine
    transition cancel release_current
cancels = refl

-- the same service at a later time
abbrev afterwards : Outside
afterwards = record around { clock = 900; id = some "audit_0000000002" }

release_tx-replay_example :
    let u = run cancelled_farm some_steps in
    release_tx afterwards u (record release_call { request_id = "request_2" })
    ≡ (require (get_reservation u "reservation_0001") not_found >>= λ q. ok (q, u))
release_tx-replay_example =
    release_tx-replay around afterwards busy_farm release_call "request_2" some_steps refl cancels

created : create_pending (λ a b. true) farm wanted 5 ≡ ok (pending_row wanted 5, busy_farm)
unfolding create_pending ◌>>=◌ guard is_identifier find_row
created = refl

checked_again : satisfies_checks (record wanted { id = "reservation_0009" }) ≡ true
unfolding satisfies_checks is_identifier
checked_again = refl

create_pending-again_example :
    (q : ReservationRow) × (q.id ≡ "reservation_0001")
    × (create_pending
          (λ a b. true)
          (run busy_farm some_steps)
          (record wanted { id = "reservation_0009" })
          99
        ≡ ok (q, run busy_farm some_steps))
create_pending-again_example =
    create_pending-again (λ a b. true) farm wanted 5 99 "reservation_0009" some_steps created
      checked_again

abbrev policy : Reaper.Policy
policy = record { grace_period = 5; pending_timeout = 60; pending_claim_grace = 30 }

abbrev turn : ℕ → Reaper.Turn
turn n = record {
  outside = record around { clock = 700000000 };
  controllers = record { has_ios = true; ios_closes = true; has_stf = true; stf_releases = true };
  asked = 700000000;
}

reaper-HasEnded_example :
    HasEnded (drain (Reaper.run_once policy) turn (suc (active_rows leased_farm)) leased_farm)
    × HasEnded
        (drain (Reaper.run_pending_once policy) turn (suc (pending_rows leased_farm)) leased_farm)
    × HasEnded (
        drain
          (Reaper.run_orphaned_claim_once policy)
          turn
          (suc (pending_rows leased_farm))
          leased_farm)
reaper-HasEnded_example = reaper-HasEnded policy turn leased_farm

abbrev leased : ReservationRow
leased = record (pending_row wanted 5) {
  status = ReservationStatus.active;
  device_id = some "device_0000000001";
  starts_at = some 10;
  expires_at = some 600000010;
}
