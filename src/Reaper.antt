-- ===== src/Reaper.antt =====
-- internal/reaper/reaper.go: the sweeps of the reaper, each repeated until it fails.
pub mod Progress
pub mod Termination
use alcor_device_farm.Prelude.{
  ℕ, zero, suc, Bool, true, false, not, Option, none, some, ltb, if◌then◌else◌,
}
use alcor_device_farm.Failure.{Error, Result, ok, err, nothing_to_reap}
use alcor_device_farm.Store.{Store, ReservationRow}
use alcor_device_farm.Reservation.Close.{Outside}
use alcor_device_farm.Reservation.Release.{Controllers, Outcome}
use alcor_device_farm.Reservation.Reap.{
  reap_once, reap_stale_pending_once, reap_orphaned_claim_once,
}

-- Policy, in seconds
pub record Policy : Type 0 where
  pub grace_period : ℕ
  pub pending_timeout : ℕ
  pub pending_claim_grace : ℕ

-- What one call gets from outside: a transaction's share, the controllers, and the database clock
-- of its query.
pub record Turn : Type 0 where
  pub outside : Outside
  pub controllers : Controllers
  pub asked : ℕ

-- RunOnce
unfoldable pub run_once : Policy → Turn → Store → Outcome
run_once p t s = reap_once t.outside t.controllers s s t.asked p.grace_period

-- RunPendingOnce. Without a timeout the code fails with ErrNothingToReap, which ends the loop of Run;
-- its doc comment speaks of a nil error there, which would repeat the loop for ever.
unfoldable pub run_pending_once : Policy → Turn → Store → Outcome
run_pending_once p t s =
    if not (ltb 0 p.pending_timeout)
    then record { store = s; result = err nothing_to_reap }
    else reap_stale_pending_once t.outside s s t.asked p.pending_timeout p.pending_claim_grace

-- RunOrphanedClaimOnce
unfoldable pub run_orphaned_claim_once : Policy → Turn → Store → Outcome
run_orphaned_claim_once p t s =
    if not (ltb 0 p.pending_timeout)
    then record { store = s; result = err nothing_to_reap }
    else reap_orphaned_claim_once t.outside s s t.asked p.pending_claim_grace

-- The store after a loop, and the error that ended it, `none` when the fuel ran out first.
pub record Drained : Type 0 where
  pub store : Store
  pub ended : Option Error

-- A loop of Run: one sweep again and again until it fails. The turns are numbered by the fuel.
unfoldable pub drain : (Turn → Store → Outcome) → (ℕ → Turn) → ℕ → Store → Drained
drain sweep turns zero s = record { store = s; ended = none }
drain sweep turns (suc n) s =
    let out = sweep (turns n) s in
    elim out.result [
      | ok row ↦ drain sweep turns n out.store
      | err e ↦ record { store = out.store; ended = some e }
    ]
