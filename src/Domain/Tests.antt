-- ===== src/Domain/Tests.antt =====
-- The theorems on internal/domain at concrete machines and devices.
use alcor_device_farm.Prelude.{
  ◌⊎◌, ◌≡◌, ◌↔◌, refl, true, none, List, [], ◌∷◌, length, ◌≤◌, ◌+◌, ◌≢◌, ◌++◌,
}
use mathlib.Core.List.{Perm}
use alcor_device_farm.Domain.Machine.{StateMachine, transition}
use alcor_device_farm.Domain.Machine.Laws.{Accepts, transition-none_iff, transition_effect}
use alcor_device_farm.Domain.Machine.Log.{Request, Log, run, run-Log}
use alcor_device_farm.Domain.Lifecycle.{
  DeviceLifecycleStatus, ready, lifecycle_status, device_transitions, valid_lifecycle,
}
use alcor_device_farm.Domain.Health.{HealthStatus, healthy, health_status}
use alcor_device_farm.Domain.Reservation.{
  ReservationStatus, reservation_status, reservation_transitions, valid_reservation,
}
use alcor_device_farm.Domain.Tables.{terminal_reservation-stays}
use alcor_device_farm.Domain.Device.{
  Device, transition_device, update_health, is_schedulable, device_events,
}
use alcor_device_farm.Domain.Device.Acceptance.{
  AcceptsHealth, transition_device-none_iff, update_health_effect, ready-is_schedulable,
}
use alcor_device_farm.Domain.Device.Log.{
  DeviceCall, moves, reports, device_run, Logs, device_run-Logs,
}
use alcor_device_farm.Domain.Device.Timeline.{IsSorted, device_events_merge}

abbrev reservation_at : ReservationStatus → StateMachine ReservationStatus
reservation_at status = record {
  resource = "device_reservation";
  id = "reservation_0001";
  column = "status";
  status = status;
  valid = valid_reservation;
  transitions = reservation_transitions;
  events = [];
}

abbrev device_at : DeviceLifecycleStatus → HealthStatus → Device
device_at status health = record {
  lifecycle = record {
    resource = "device";
    id = "device_0123456789";
    column = "lifecycle_status";
    status = status;
    valid = valid_lifecycle;
    transitions = device_transitions;
    events = [];
  };
  health = health;
  events = [];
}

abbrev two_requests : List (Request ReservationStatus)
two_requests =
    record { to = ReservationStatus.released; reason = "too early"; time = 3 }
    ∷ record { to = ReservationStatus.active; reason = "allocated"; time = 4 }
    ∷ []

abbrev two_calls : List DeviceCall
two_calls =
    moves (record { to = ready; reason = "recycled"; time = 9 })
    ∷ reports (record { to = HealthStatus.unhealthy; reason = "no heartbeat"; time = 7 })
    ∷ []

transition-none_iff_example :
    ((transition
        (reservation_at ReservationStatus.pending)
        ReservationStatus.active
        "allocated"
        4).1
      ≡ none)
    ↔ Accepts (reservation_at ReservationStatus.pending) ReservationStatus.active "allocated" 4
transition-none_iff_example =
    transition-none_iff (reservation_at ReservationStatus.pending) ReservationStatus.active
      "allocated" 4

transition_effect_example :
    let (n, e) =
      transition
        (reservation_at ReservationStatus.pending)
        ReservationStatus.released
        "too early"
        3 in
    ((e ≡ none) × (n.status ≡ ReservationStatus.released) × (length n.events ≡ 0 + 1))
    ⊎ ((e ≢ none) × (n.status ≡ ReservationStatus.pending) × (length n.events ≤ 0 + 1))
transition_effect_example =
    transition_effect (reservation_at ReservationStatus.pending) ReservationStatus.released
      "too early" 3

run-Log_example :
    Log reservation_transitions ReservationStatus.pending
      (run (reservation_at ReservationStatus.pending) two_requests).events
      (run (reservation_at ReservationStatus.pending) two_requests).status
run-Log_example = run-Log (reservation_at ReservationStatus.pending) two_requests refl

terminal_reservation-stays_example :
    (run (reservation_at ReservationStatus.expired) two_requests).status ≡ ReservationStatus.expired
terminal_reservation-stays_example =
    terminal_reservation-stays (reservation_at ReservationStatus.expired) two_requests refl refl

transition_device-none_iff_example :
    ((transition_device
        (device_at DeviceLifecycleStatus.recycling HealthStatus.unhealthy)
        ready
        "recycled"
        9).1
      ≡ none)
    ↔ (Accepts
          (device_at DeviceLifecycleStatus.recycling HealthStatus.unhealthy).lifecycle
          ready
          "recycled"
          9
        × (ready ≡ ready → HealthStatus.unhealthy ≡ healthy))
transition_device-none_iff_example =
    transition_device-none_iff (device_at DeviceLifecycleStatus.recycling HealthStatus.unhealthy)
      ready "recycled" 9

update_health_effect_example :
    let d = device_at DeviceLifecycleStatus.ready HealthStatus.healthy in
    let (n, e) = update_health d HealthStatus.unhealthy "no heartbeat" 7 in
    (n.lifecycle ≡ d.lifecycle)
    × ((AcceptsHealth d HealthStatus.unhealthy "no heartbeat" 7
          × (e ≡ none)
          × (n.health ≡ HealthStatus.unhealthy))
        ⊎ (¬ (AcceptsHealth d HealthStatus.unhealthy "no heartbeat" 7)
            × (e ≢ none)
            × (n.health ≡ d.health)))
update_health_effect_example =
    update_health_effect (device_at DeviceLifecycleStatus.ready HealthStatus.healthy)
      HealthStatus.unhealthy "no heartbeat" 7

becomes_ready :
    (transition_device (device_at DeviceLifecycleStatus.recycling healthy) ready "recycled" 9).1
    ≡ none
unfolding transition_device transition valid_lifecycle alcor_device_farm.Text.trim_space
becomes_ready = refl

ready-is_schedulable_example :
    is_schedulable
      (transition_device (device_at DeviceLifecycleStatus.recycling healthy) ready "recycled" 9).0
    ≡ true
ready-is_schedulable_example =
    ready-is_schedulable (device_at DeviceLifecycleStatus.recycling healthy) "recycled" 9
      becomes_ready

device_run-Logs_example :
    Logs DeviceLifecycleStatus.recycling healthy
      (device_run (device_at DeviceLifecycleStatus.recycling healthy) two_calls)
device_run-Logs_example =
    device_run-Logs (device_at DeviceLifecycleStatus.recycling healthy) two_calls refl refl refl

device_events_merge_example :
    let d = device_run (device_at DeviceLifecycleStatus.recycling healthy) two_calls in
    IsSorted (device_events d) × Perm (device_events d) (d.lifecycle.events ++ d.events)
device_events_merge_example =
    device_events_merge (device_run (device_at DeviceLifecycleStatus.recycling healthy) two_calls)
