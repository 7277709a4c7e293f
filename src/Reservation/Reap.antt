-- ===== src/Reservation/Reap.antt =====
-- internal/reservation/service.go: ReapOnce, ReapStalePendingOnce and ReapOrphanedClaimOnce. Each
-- selects a reservation, and checks it again in the transaction that ends it. A bound is a number
-- of whole seconds.
use alcor_device_farm.Prelude.{ℕ, ◌+◌, ◌*◌, not, String, none, some, leb, ltb, if◌then◌else◌}
use Prim.Native.String.{◌++◌ as str_append}
use alcor_device_farm.Audit.{Actor, system}
use alcor_device_farm.Failure.{
  Result, ok, err, ◌>>=◌, ◌>>◌, guard, require, not_found, nothing_to_reap, invalid_argument,
}
use alcor_device_farm.Domain.Reservation.{ReservationStatus}
use alcor_device_farm.Store.{Store, ReservationRow, second}
use alcor_device_farm.Repository.Queries.{
  is_active, is_pending, is_waiting, get_reservation, find_next_expired, find_next_stale_pending,
  find_next_orphaned_claim,
}
use alcor_device_farm.Repository.Writes.{fail_pending_reservation, fail_pending_claim}
use alcor_device_farm.Reservation.Close.{Outside, Entry, record_entry, close_active_locked}
use alcor_device_farm.Reservation.Release.{
  Controllers, Outcome, committed, close_ios_session, release_stf, stf_failure,
}

-- reaperActor
abbrev pub reaper_actor : Actor
reaper_actor = record system { id = "reservation_reaper" }

abbrev pub reaper_entry : String → String → String → String → Entry
reaper_entry prefix id action reason = record {
  actor = reaper_actor;
  action = action;
  request_id = str_append prefix id;
  reason = reason;
}

-- the transaction of ReapOnce
unfoldable pub reap_tx : Outside → Store → String → ℕ → Result (ReservationRow × Store)
reap_tx o s id grace = do
  current ← require (get_reservation s id) not_found
  guard (is_active current) nothing_to_reap
  expires ← require current.expires_at nothing_to_reap
  guard (leb (expires + grace * second) o.clock) nothing_to_reap
  close_active_locked o s current ReservationStatus.expired (
      reaper_entry "reaper_" id "expire_device_reservation"
        "reservation lease and grace period expired")

-- ReapOnce, with the database clock of its query
unfoldable pub reap_once : Outside → Controllers → Store → Store → ℕ → ℕ → Outcome
reap_once o k read s asked grace = elim (find_next_expired read asked grace) [
  | none ↦ record { store = s; result = err nothing_to_reap }
  | some selected ↦ elim (close_ios_session k selected) [
    | err e ↦ record { store = s; result = err e }
    | ok _ ↦ elim (release_stf read k selected) [
      | err e ↦ record {
        store = stf_failure o s selected.id (
            reaper_entry "reaper_" selected.id "stf_release_failed"
              "STF release failed during expiry; reservation remains active");
        result = err e;
      }
      | ok _ ↦ committed s (reap_tx o s selected.id grace)
    ]
  ]
]

-- the transaction of ReapStalePendingOnce
unfoldable pub reap_stale_tx : Outside → Store → String → ℕ → ℕ → Result (ReservationRow × Store)
reap_stale_tx o s id timeout grace = do
  current ← require (get_reservation s id) not_found
  guard (is_waiting current) nothing_to_reap
  guard (leb (current.created_at + timeout * second + grace * second) o.clock) nothing_to_reap
  t ← fail_pending_reservation s id "PENDING_TIMEOUT" o.clock
  u ← record_entry o t id (
      reaper_entry "pending_reaper_" id "fail_stale_pending_reservation"
        "等不到虚拟机，需要检查：预约在等待上限内未能分配到设备")
  row ← require (get_reservation u id) not_found
  ok (row, u)

unfoldable pub reap_stale_pending_once : Outside → Store → Store → ℕ → ℕ → ℕ → Outcome
reap_stale_pending_once o read s asked timeout grace =
    if not (ltb 0 timeout)
    then record { store = s; result = err invalid_argument }
    else elim (find_next_stale_pending read asked timeout grace) [
      | none ↦ record { store = s; result = err nothing_to_reap }
      | some selected ↦ committed s (reap_stale_tx o s selected.id timeout grace)
    ]

-- the transaction of ReapOrphanedClaimOnce
unfoldable pub reap_orphan_tx : Outside → Store → String → ℕ → Result (ReservationRow × Store)
reap_orphan_tx o s id grace = do
  current ← require (get_reservation s id) not_found
  guard (is_pending current) nothing_to_reap
  device ← require current.device_id nothing_to_reap
  guard (leb (current.updated_at + grace * second) o.clock) nothing_to_reap
  t ← fail_pending_claim s id device "CLAIM_ABANDONED" o.clock
  u ←
      record_entry o t id
        (reaper_entry "orphan_reaper_" id "fail_orphaned_device_claim" "设备分配中断，已释放设备并终止预约")
  row ← require (get_reservation u id) not_found
  ok (row, u)

unfoldable pub reap_orphaned_claim_once : Outside → Store → Store → ℕ → ℕ → Outcome
reap_orphaned_claim_once o read s asked grace = elim (find_next_orphaned_claim read asked grace) [
  | none ↦ record { store = s; result = err nothing_to_reap }
  | some selected ↦ committed s (reap_orphan_tx o s selected.id grace)
]
