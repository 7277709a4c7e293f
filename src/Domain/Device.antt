-- ===== src/Domain/Device.antt =====
-- internal/domain/device.go: a device, with the machine of its lifecycle and the one of its health.
pub mod Acceptance
pub mod Log
pub mod Timeline
use alcor_device_farm.Prelude.{
  ℕ, Bool, true, false, ◌&&◌, String, Option, none, some, List, [], ◌∷◌, ◌++◌, ltb, not, ◌==◌,
  if◌then◌else◌,
}
use alcor_device_farm.Text.{trim_space, is_empty}
use alcor_device_farm.Domain.Machine.{
  StateMachine, TransitionEvent, TransitionError, Error, Result, ok, err, invalid_status,
  invalid_transition, reason_required, time_required, device_not_healthy, permits,
  new_state_machine, record_rejected, transition,
}
use alcor_device_farm.Domain.Lifecycle.{
  DeviceLifecycleStatus, ready, lifecycle_same, lifecycle_status, device_transitions,
  valid_lifecycle,
}
use alcor_device_farm.Domain.Health.{
  HealthStatus, healthy, health_same, health_name, health_status, health_transitions, valid_health,
}

pub record Device : Type 0 where
  pub lifecycle : StateMachine DeviceLifecycleStatus
  pub health : HealthStatus
  pub events : List TransitionEvent

unfoldable pub restore_device : String → DeviceLifecycleStatus → HealthStatus → Result Device
unfolding new_state_machine valid_lifecycle valid_health
restore_device id lifecycle health =
    elim (new_state_machine "device" id "lifecycle_status" lifecycle valid_lifecycle
      device_transitions) [
        | err e ↦ err e
        | ok m ↦
            if not (valid_health health)
            then err (invalid_status (health_name health))
            else ok (record { lifecycle = m; health = health; events = [] })
      ]

-- A device becomes ready only while it is healthy.
unfoldable pub transition_device :
    Device → DeviceLifecycleStatus → String → ℕ → Device × Option Error
unfolding transition record_rejected
transition_device d to reason time =
    if lifecycle_same to ready && not (health_same d.health healthy)
    then (
      if not (is_empty (trim_space reason)) && not (time == 0)
          then record d {
            lifecycle = record_rejected d.lifecycle to reason time "DEVICE_NOT_HEALTHY";
          }
          else d,
      some device_not_healthy,
    )
    else let (m, e) = transition d.lifecycle to reason time in (record d { lifecycle = m }, e)

pub health_event : Device → HealthStatus → String → ℕ → Bool → String → TransitionEvent
health_event d to reason time accepted code = record {
  resource = "device";
  id = d.lifecycle.id;
  column = "health_status";
  from = health_name d.health;
  to = health_name to;
  reason = trim_space reason;
  time = time;
  accepted = accepted;
  error_code = code;
}

abbrev pub health_refusal : Device → HealthStatus → TransitionError
health_refusal d to = record {
  resource = "device";
  id = d.lifecycle.id;
  column = "health_status";
  from = health_name d.health;
  to = health_name to;
}

unfoldable pub update_health : Device → HealthStatus → String → ℕ → Device × Option Error
unfolding valid_health health_event
update_health d to reason time =
    if not (valid_health to)
    then (d, some (invalid_status (health_name to)))
    else if is_empty (trim_space reason)
    then (d, some reason_required)
    else if time == 0
    then (d, some time_required)
    else if not (permits health_transitions d.health to)
    then (
      record d {
        events = d.events ++ health_event d to reason time false "INVALID_STATE_TRANSITION" ∷ [];
      },
      some (invalid_transition (health_refusal d to)),
    )
    else (
      record d { health = to; events = d.events ++ health_event d to reason time true "" ∷ [] },
      none,
    )

unfoldable pub is_schedulable : Device → Bool
is_schedulable d = lifecycle_same d.lifecycle.status ready && health_same d.health healthy

-- sort.SliceStable by time: an event goes right behind those that are strictly earlier.
insert_event : TransitionEvent → List TransitionEvent → List TransitionEvent
insert_event e [] = e ∷ []
insert_event e (f ∷ fs) = if ltb f.time e.time then f ∷ insert_event e fs else e ∷ f ∷ fs

sort_events : List TransitionEvent → List TransitionEvent
unfolding insert_event
sort_events [] = []
sort_events (e ∷ es) = insert_event e (sort_events es)

unfoldable pub device_events : Device → List TransitionEvent
unfolding sort_events
device_events d = sort_events (d.lifecycle.events ++ d.events)
