-- ===== src/Reservation/Release.antt =====
-- internal/reservation/service.go: Release. It reads the store, asks Appium and STF to let the
-- device go, and ends the reservation in a transaction of its own; other transactions may run
-- between the read and that one.
use alcor_device_farm.Prelude.{
  Bool, true, false, ◌&&◌, ◌||◌, not, String, none, some, leb, str_eq, if◌then◌else◌,
}
use alcor_device_farm.Text.{size, trim_space, is_empty, is_identifier}
use alcor_device_farm.Audit.{Actor, valid_actor}
use alcor_device_farm.Failure.{
  Result, ok, err, ◌>>=◌, ◌>>◌, guard, require, checked, from_domain, not_found, conflict,
  invalid_argument, forbidden, stf_release_failed, ios_session_cleanup_failed,
}
use alcor_device_farm.Domain.Reservation.{
  ReservationStatus, restore_reservation, transition_reservation,
}
use alcor_device_farm.Store.{Store, ReservationRow, OperationRow}
use alcor_device_farm.Repository.Queries.{
  is_active, is_pending, is_null, get_reservation, get_device,
}
use alcor_device_farm.Repository.Operations.{begin_operation, check_operation}
use alcor_device_farm.Repository.Writes.{cancel_pending}
use alcor_device_farm.Reservation.Close.{
  Outside, Entry, release, translate, translate_error, record_entry, close_active_locked,
}
use alcor_device_farm.Reservation.Extend.{valid_key}

-- Who releases what, and why: the arguments of Release.
pub record ReleaseCall : Type 0 where
  pub actor : Actor
  pub key : String
  pub id : String
  pub request_id : String
  pub reason : String
  pub force : Bool

-- The two controllers: is there one, and does its call succeed?
pub record Controllers : Type 0 where
  pub has_ios : Bool
  pub ios_closes : Bool
  pub has_stf : Bool
  pub stf_releases : Bool

abbrev pub release_operation : Outside → ReleaseCall → OperationRow
release_operation o c = record {
  client_id = c.actor.client_id;
  scope = "release_device_reservation";
  idempotency_key = c.key;
  request_hash = o.hash (release c.id (trim_space c.reason) c.force);
  resource_type = "device_reservation";
  resource_id = c.id;
}

valid_release : Outside → ReleaseCall → Bool
valid_release o c =
    valid_actor c.actor
    && valid_key c.key
    && is_identifier c.id
    && leb 3 (size (trim_space c.reason))
    && leb (size (trim_space c.reason)) 500
    && not (o.is_sensitive (trim_space c.reason))
    && not (is_empty c.request_id)

-- the client that made the reservation, or the person that it was made for
unfoldable pub is_owner : Actor → ReservationRow → Bool
is_owner a r =
    str_eq r.client_id a.client_id
    || (str_eq a.kind "console" && str_eq r.owner_type "manual" && str_eq r.owner_id a.id)

-- isClosedStatus
abbrev pub is_closed : ReservationStatus → Bool
is_closed ReservationStatus.released = true
is_closed ReservationStatus.expired = true
is_closed ReservationStatus.force_released = true
is_closed ReservationStatus.failed = true
is_closed _ = false

-- what Release reads before it calls the controllers
unfoldable pub release_check : Outside → Store → ReleaseCall → Result ReservationRow
unfolding valid_release is_owner
release_check o s c = do
  guard (valid_release o c) invalid_argument
  _ ← translate (check_operation s (release_operation o c))
  current ← require (get_reservation s c.id) not_found
  guard (is_owner c.actor current || c.force) forbidden
  ok current

-- closeIOSSession
unfoldable pub close_ios_session : Controllers → ReservationRow → Result (Unit {0})
close_ios_session k current =
    guard (not k.has_ios || is_null current.device_id || k.ios_closes) ios_session_cleanup_failed

-- releaseSTF
unfoldable pub release_stf : Store → Controllers → ReservationRow → Result (Unit {0})
release_stf s k current = elim current.device_id [
  | none ↦ ok tt
  | some id ↦ if not k.has_stf then ok tt else do
    device ← require (get_device s id) not_found
    guard (not (str_eq device.platform "android") || k.stf_releases) stf_release_failed
]

abbrev pub release_entry : ReleaseCall → Bool → Entry
release_entry c force = record {
  actor = c.actor;
  action = if force then "force_release_device_reservation" else "release_device_reservation";
  request_id = c.request_id;
  reason = trim_space c.reason;
}

-- the cancellation of a reservation that waits for a device
unfoldable pub cancel :
    Outside → Store → ReleaseCall → ReservationRow → Result (ReservationRow × Store)
cancel o s c current = do
  guard (is_null current.device_id) conflict
  state ← from_domain (restore_reservation current.id current.status)
  _ ← checked (transition_reservation state ReservationStatus.failed (trim_space c.reason) o.clock)
  (row, t) ← cancel_pending s current.id "RESERVATION_CANCELED" o.clock
  u ← record_entry o t current.id (record {
    actor = c.actor;
    action = "cancel_pending_device_reservation";
    request_id = c.request_id;
    reason = trim_space c.reason;
  })
  ok (row, u)

-- what a release does with the reservation, by its status
unfoldable pub release_current :
    Outside → Store → ReleaseCall → ReservationRow → Result (ReservationRow × Store)
unfolding cancel
release_current o s c current =
    if is_pending current
    then cancel o s c current
    else if is_active current
    then close_active_locked o s current
        (if c.force then ReservationStatus.force_released else ReservationStatus.released)
        (release_entry c c.force)
    else if is_closed current.status
    then ok (current, s)
    else err conflict

-- the transaction
unfoldable pub release_tx : Outside → Store → ReleaseCall → Result (ReservationRow × Store)
unfolding release_current
release_tx o s c = do
  (replay, t) ← begin_operation s (release_operation o c)
  current ← require (get_reservation t c.id) not_found
  if replay then ok (current, t) else release_current o t c current

-- recordSTFFailure; a failure of the audit is rolled back.
unfoldable pub stf_failure : Outside → Store → String → Entry → Store
unfolding record_entry
stf_failure o s id e = elim (record_entry o s id e) [ ok t ↦ t | err _ ↦ s ]

abbrev pub failed_release : ReleaseCall → Entry
failed_release c = record {
  actor = c.actor;
  action = "stf_release_failed";
  request_id = c.request_id;
  reason = "STF release failed; reservation remains active";
}

-- What a call leaves: the store, and the reservation or the error.
pub record Outcome : Type 0 where
  pub store : Store
  pub result : Result ReservationRow

-- a transaction whose error rolls it back
abbrev pub committed : Store → Result (ReservationRow × Store) → Outcome
committed s r = elim r [
  | ok (row, t) ↦ record { store = t; result = ok row }
  | err e ↦ record { store = s; result = err (translate_error e) }
]

-- Release: `read` is the store that it reads, and `s` the one when its last transaction starts.
unfoldable pub release_reservation : Outside → Controllers → Store → Store → ReleaseCall → Outcome
unfolding translate_error
release_reservation o k read s c = elim (release_check o read c) [
  | err e ↦ record { store = s; result = err e }
  | ok current ↦
      if not (is_active current)
      then committed s (release_tx o s c)
      else elim (close_ios_session k current) [
        | err e ↦ record { store = s; result = err e }
        | ok _ ↦ elim (release_stf read k current) [
          | err e ↦ record { store = stf_failure o s current.id (failed_release c); result = err e }
          | ok _ ↦ committed s (release_tx o s c)
        ]
      ]
]
