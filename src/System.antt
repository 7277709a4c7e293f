-- ===== src/System.antt =====
-- The transactions of the scheduler, of the reservation service and of the reaper as the steps of one
-- system, in any order. A transaction that fails is rolled back. In between other components (the
-- heartbeats, the reconciler, the warm pool, management) may change the devices in any way: `others`.
pub mod Occupancy
pub mod Sessions
pub mod Replay
pub mod Creation
mod Tests
use alcor_device_farm.Prelude.{refl, ℕ, Bool, true, false, String, List, [], ◌∷◌}
use alcor_device_farm.Audit.{Actor}
use alcor_device_farm.Failure.{Result, ok, err, OnOk, Result-cases}
use alcor_device_farm.Store.{Store, DeviceRow, ReservationRow, SessionRow, RequestedCapabilities}
use alcor_device_farm.Repository.Writes.{create_pending, CreateReservationParams}
use alcor_device_farm.Scheduler
use alcor_device_farm.Scheduler.{ClaimCandidate, claim, activate, compensated}
use alcor_device_farm.Scheduler.Safety.{claim-keeps, activate-keeps, compensated-keeps}
use alcor_device_farm.Reservation.Close.{Outside, Entry}
use alcor_device_farm.Reservation.Extend.{extend_tx}
use alcor_device_farm.Reservation.Release.{ReleaseCall, release_tx, stf_failure}
use alcor_device_farm.Reservation.Reap.{reap_tx, reap_stale_tx, reap_orphan_tx}
use alcor_device_farm.Reservation.Safety.{
  extend_tx-keeps, release_tx-keeps, reap_tx-keeps, reap_stale_tx-keeps, reap_orphan_tx-keeps,
  stf_failure-keeps,
}
use alcor_device_farm.Kept.{Kept}

pub data Step : Type 0 where
  creates :
      (RequestedCapabilities → RequestedCapabilities → Bool) → CreateReservationParams → ℕ → Step
  claims : Scheduler.Outside → Step
  activates : ClaimCandidate → String → Scheduler.Outside → Step
  compensates : ClaimCandidate → String → Bool → Scheduler.Outside → Step
  extends : Outside → Actor → String → String → ℕ → Step
  releases : Outside → ReleaseCall → Step
  reaps : Outside → String → ℕ → Step
  reaps_stale : Outside → String → ℕ → ℕ → Step
  reaps_orphan : Outside → String → ℕ → Step
  records_failure : Outside → String → Entry → Step
  others : (List DeviceRow → List DeviceRow) → Step

-- the store after a transaction
unfoldable pub after : {A : Type 0} → Store → Result (A × Store) → Store
after s (ok (a, t)) = t
after s (err e) = s

unfoldable pub step : Store → Step → Store
unfolding after
step s (creates same p clock) = after s (create_pending same s p clock)
step s (claims o) = after s (claim s o)
step s (activates c session o) = after s (activate s c session o)
step s (compensates c code terminal o) = compensated s c code terminal o
step s (extends o actor key id seconds) = after s (extend_tx o s actor key id seconds)
step s (releases o c) = after s (release_tx o s c)
step s (reaps o id grace) = after s (reap_tx o s id grace)
step s (reaps_stale o id timeout grace) = after s (reap_stale_tx o s id timeout grace)
step s (reaps_orphan o id grace) = after s (reap_orphan_tx o s id grace)
step s (records_failure o id e) = stf_failure o s id e
step s (others change) = record s { devices = change s.devices }

unfoldable pub run : Store → List Step → Store
unfolding step
run s [] = s
run s (x ∷ xs) = run (step s x) xs

after-keeps :
    {A : Type 0} (I : Store → Type 0) (s : Store) (r : Result (A × Store))
    → I s
    → OnOk (λ t. I t.1) r
    → I (after s r)
unfolding after
after-keeps I s (ok t) x h = h.apply t refl
after-keeps I s (err e) x h = x

module _ (I : Store → Type 0) (kept : Kept I) where
  pub step-keeps : (s : Store) (x : Step) → I s → I (step s x)
  unfolding step
  step-keeps s (creates same p clock) i = after-keeps I s _ i (kept.by_create same s p clock i)
  step-keeps s (claims o) i = after-keeps I s _ i (claim-keeps I kept s o i)
  step-keeps s (activates c session o) i =
      after-keeps I s _ i (activate-keeps I kept s c session o i)
  step-keeps s (compensates c code terminal o) i = compensated-keeps I kept s c code terminal o i
  step-keeps s (extends o actor key id seconds) i =
      after-keeps I s _ i (extend_tx-keeps I kept o s actor key id seconds i)
  step-keeps s (releases o c) i = after-keeps I s _ i (release_tx-keeps I kept o s c i)
  step-keeps s (reaps o id grace) i = after-keeps I s _ i (reap_tx-keeps I kept o s id grace i)
  step-keeps s (reaps_stale o id timeout grace) i =
      after-keeps I s _ i (reap_stale_tx-keeps I kept o s id timeout grace i)
  step-keeps s (reaps_orphan o id grace) i =
      after-keeps I s _ i (reap_orphan_tx-keeps I kept o s id grace i)
  step-keeps s (records_failure o id e) i = stf_failure-keeps I kept o s id e i
  step-keeps s (others change) i = kept.by_devices s (change s.devices) i

  pub run-keeps : (s : Store) (xs : List Step) → I s → I (run s xs)
  unfolding run
  run-keeps s [] i = i
  run-keeps s (x ∷ xs) i = run-keeps (step s x) xs (step-keeps s x i)
