-- ===== src/System/Sessions.antt =====
-- A reservation is active exactly while its session is, in any order of the system's steps.
use alcor_device_farm.Prelude.{◌≤◌, ◌≡◌, refl, String, List, [], arith}
use alcor_device_farm.Domain.Session.{SessionStatus}
use alcor_device_farm.Store.{Store}
use alcor_device_farm.Store.Rows.{count}
use alcor_device_farm.Repository.Writes.{has_session}
use alcor_device_farm.Paired.{IsPaired, has_row, active_row}
use alcor_device_farm.Paired.Activation.{IsPaired-Kept}
use alcor_device_farm.System.{Step, run, run-keeps}

-- From a store without reservations and sessions, whatever transactions follow, and in whatever
-- order: under each reservation id there is at most one reservation, and there are as many active
-- sessions as active reservations.
pub run-paired :
    (s : Store) (steps : List Step) (id : String)
    → s.reservations ≡ []
    → s.sessions ≡ []
    → (count (has_row id) (run s steps).reservations ≤ 1)
      × (count (active_row id) (run s steps).reservations
          ≡ count (has_session id SessionStatus.active) (run s steps).sessions)
unfolding count
run-paired s steps id e f =
    let start : IsPaired s = record {
      keyed = λ i. rw e (omega arith);
      matched = λ i. rw (e, f) refl;
    } in
    let x = run-keeps IsPaired IsPaired-Kept s steps start in (x.keyed id, x.matched id)
