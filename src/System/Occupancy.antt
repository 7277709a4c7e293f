-- ===== src/System/Occupancy.antt =====
-- No device has two active reservations, in any order of the system's steps.
use alcor_device_farm.Prelude.{◌≤◌, ◌≡◌, String, List, [], arith}
use alcor_device_farm.Store.{Store}
use alcor_device_farm.Store.Rows.{count}
use alcor_device_farm.Unshared.{IsUnshared, IsUnshared-Kept, occupies}
use alcor_device_farm.System.{Step, run, run-keeps}

-- From a store without reservations, whatever transactions of the scheduler, of the reservation
-- service and of the reaper follow, in whatever order, and whatever other components make of the
-- devices in between: no device has two active reservations.
pub run-occupied_once :
    (s : Store) (steps : List Step) (device : String)
    → s.reservations ≡ []
    → count (occupies device) (run s steps).reservations ≤ 1
unfolding count
run-occupied_once s steps device e =
    let start : IsUnshared s = record {
      keyed = λ id. rw e (omega arith);
      single = λ d. rw e (omega arith);
    } in
    (run-keeps IsUnshared IsUnshared-Kept s steps start).single device
