-- ===== src/Scheduler.antt =====
-- internal/scheduler/scheduler.go: one round of the scheduler, in the transactions that it is made
-- of. What it gets from outside is an argument: the clocks, the rows that other transactions lock,
-- the answer of STF and the generated id.
pub mod Safety
pub mod Order
pub mod Recovery
pub mod Compensation
use alcor_device_farm.Prelude.{
  ℕ, Bool, true, false, ◌&&◌, not, String, Option, none, some, List, [], ◌∷◌, ◌++◌, str_eq, ltb,
  if◌then◌else◌,
}
use alcor_device_farm.Failure.{
  Error, Result, ok, err, ◌>>=◌, ◌>>◌, guard, require, checked, from_domain, not_found,
  capacity_unavailable, no_pending_reservation, stf_claim_failed, no_id,
}
use alcor_device_farm.Domain.Lifecycle.{DeviceLifecycleStatus}
use alcor_device_farm.Domain.Device.{restore_device, transition_device}
use alcor_device_farm.Domain.Reservation.{
  ReservationStatus, restore_reservation, transition_reservation,
}
use alcor_device_farm.Domain.Session.{
  SessionStatus, new_session as start_session, transition_session,
}
use alcor_device_farm.Domain.Pool.{PoolStatus, pool_same}
use alcor_device_farm.Store.{Store, DeviceRow, ReservationRow, SessionRow}
use alcor_device_farm.Repository.Queries.{
  is_pending, names_device, has_pending, lock_next_allocatable_pending, lock_matching_device,
  get_reservation, get_device,
}
use alcor_device_farm.Repository.Policies.{PoolPolicy, lock_pool_policy_for_host}
use alcor_device_farm.Repository.Writes.{reserve_for_claim, compensate_claim, activate_claimed}

-- claimCandidate: the reservation and the device that were selected.
pub record ClaimCandidate : Type 0 where
  pub reservation : ReservationRow
  pub device : DeviceRow

pub record Assignment : Type 0 where
  pub reservation : ReservationRow
  pub session : SessionRow

-- What a round gets from outside: the database clock in the query, at the claim, at a compensation
-- and at the activation; the process clock; the locked rows; whether there is a claimer; STF's
-- answer to a claim, `none` for success and otherwise whether the error is retryable; the generated
-- session id.
pub record Outside : Type 0 where
  pub asked_at : ℕ
  pub claimed_at : ℕ
  pub compensated_at : ℕ
  pub activated_at : ℕ
  pub utc : ℕ
  pub locked_reservation : String → Bool
  pub locked_device : String → Bool
  pub has_claimer : Bool
  pub claim_failure : Option Bool
  pub session_id : Option String

-- the claims that STF granted, and the releases that were asked of it
pub data StfCall : Type 0 where
  claims releases : String → StfCall

next_or_reason : Store → ℕ → (String → Bool) → Result ReservationRow
next_or_reason s clock locked = elim (lock_next_allocatable_pending s clock locked) [
  | some r ↦ ok r
  | none ↦ err (if has_pending s then capacity_unavailable else no_pending_reservation)
]

has_room : PoolPolicy → Bool
has_room p = pool_same p.status PoolStatus.active && ltb p.active_reservations p.max_concurrency

-- The first transaction of RunOnce: it selects a reservation and a device, and reserves the device.
unfoldable pub claim : Store → Outside → Result (ClaimCandidate × Store)
unfolding next_or_reason has_room
claim s o = do
  reservation ← next_or_reason s o.asked_at o.locked_reservation
  device ←
      require (lock_matching_device s reservation.requested_capabilities o.locked_device)
        capacity_unavailable
  policy ← require (lock_pool_policy_for_host s device.host_id device.id) capacity_unavailable
  guard (has_room policy) capacity_unavailable
  state ← from_domain (restore_device device.id device.lifecycle_status device.health_status)
  _ ← checked (
      transition_device state DeviceLifecycleStatus.reserved "scheduler reserved device"
        o.claimed_at)
  t ← reserve_for_claim s reservation.id device.id o.claimed_at
  ok (
    record { reservation = record reservation { device_id = some device.id }; device = device },
    t,
  )

-- The last transaction of RunOnce: it checks the claim again and activates it.
unfoldable pub activate : Store → ClaimCandidate → String → Outside → Result (Assignment × Store)
unfolding has_room
activate s c session o = do
  reservation ← require (get_reservation s c.reservation.id) not_found
  guard (is_pending reservation && names_device c.device.id reservation.device_id) not_found
  policy ← require (lock_pool_policy_for_host s c.device.host_id c.device.id) not_found
  guard (has_room policy) capacity_unavailable
  device ← require (get_device s c.device.id) not_found
  reserved ← from_domain (restore_reservation reservation.id reservation.status)
  _ ← checked (
      transition_reservation reserved ReservationStatus.active "device allocation claim succeeded"
        o.utc)
  state ← from_domain (restore_device device.id device.lifecycle_status device.health_status)
  _ ← checked (
      transition_device state DeviceLifecycleStatus.busy
        "device session started after allocation claim" o.utc)
  opened ← from_domain (start_session session)
  _ ← checked (transition_session opened SessionStatus.active "scheduler started session" o.utc)
  (row, started, t) ← activate_claimed s reservation.id device.id session o.activated_at
  ok (record { reservation = row; session = started }, t)

-- The serial under which STF knows the device.
abbrev pub stf_name : DeviceRow → String
stf_name d = if str_eq d.stf_serial "" then d.serial else d.stf_serial

-- compensateClaim; a failed compensation is rolled back, and leaves the store.
unfoldable pub compensated : Store → ClaimCandidate → String → Bool → Outside → Store
compensated s c code terminal o =
    elim (compensate_claim s c.reservation.id c.device.id code terminal o.compensated_at) [
      | ok t ↦ t
      | err _ ↦ s
    ]

abbrev pub uses_stf : ClaimCandidate → Outside → Bool
uses_stf c o = o.has_claimer && str_eq c.device.platform "android"

abbrev pub claim_calls : ClaimCandidate → Outside → List StfCall
claim_calls c o = if uses_stf c o then claims (stf_name c.device) ∷ [] else []

abbrev pub release_calls : ClaimCandidate → Outside → List StfCall
release_calls c o = if uses_stf c o then releases (stf_name c.device) ∷ [] else []

-- What a round leaves: the store, the assignment or the error, and the calls of STF.
pub record Round : Type 0 where
  pub store : Store
  pub result : Result Assignment
  pub stf : List StfCall

-- releaseAndCompensate
abbrev pub give_back : Store → ClaimCandidate → String → Bool → Error → Outside → Round
give_back s c code terminal e o = record {
  store = compensated s c code terminal o;
  result = err e;
  stf = claim_calls c o ++ release_calls c o;
}

-- From the generated session id on.
unfoldable pub start : Store → ClaimCandidate → Outside → Round
start s c o = elim o.session_id [
  | none ↦ give_back s c "SESSION_ID_GENERATION_FAILED" true no_id o
  | some id ↦ elim (activate s c id o) [
    | ok (a, t) ↦ record { store = t; result = ok a; stf = claim_calls c o }
    | err e ↦ give_back s c "STF_CLAIM_COMPENSATED" false e o
  ]
]

-- From the call of STF on.
unfoldable pub proceed : Store → ClaimCandidate → Outside → Round
unfolding start
proceed s c o =
    if uses_stf c o
    then elim o.claim_failure [
      | none ↦ start s c o
      | some retryable ↦ record {
        store = compensated s c "STF_CLAIM_FAILED" (not retryable) o;
        result = err stf_claim_failed;
        stf = [];
      }
    ]
    else start s c o

-- RunOnce
unfoldable pub run_once : Store → Outside → Round
unfolding proceed
run_once s o = elim (claim s o) [
  | ok (c, t) ↦ proceed t c o
  | err e ↦ record { store = s; result = err e; stf = [] }
]
