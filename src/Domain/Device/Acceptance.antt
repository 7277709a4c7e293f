-- ===== src/Domain/Device/Acceptance.antt =====
-- Which calls a device accepts, and what they change (internal/domain/device.go).
use alcor_device_farm.Prelude.{
  ◌⊎◌, inl, inr, Option-cases, ℕ, ◌≡◌, ◌≢◌, ◌↔◌, true, false, String, none, arith, refl, ◌&&◌, not,
}
use alcor_device_farm.Text.{trim_space, is_empty}
use alcor_device_farm.Domain.Machine.{permits, accept}
use alcor_device_farm.Domain.Machine.Laws.{Accepts, transition-accept}
use alcor_device_farm.Domain.Lifecycle.{
  DeviceLifecycleStatus, ready, lifecycle_same, lifecycle_same_iff, lifecycle_status,
}
use alcor_device_farm.Domain.Health.{
  HealthStatus, healthy, health_same, health_same_iff, health_status, health_transitions,
  valid_health,
}
use alcor_device_farm.Domain.Device.{Device, transition_device, update_health, is_schedulable}
use alcor_device_farm.Domain.Machine.{transition}

-- A lifecycle call is accepted exactly when the machine accepts it and, if it asks for `ready`, the
-- device is healthy.
pub transition_device-none_iff :
    (d : Device) (to : DeviceLifecycleStatus) (reason : String) (time : ℕ)
    → ((transition_device d to reason time).1 ≡ none)
      ↔ (Accepts d.lifecycle to reason time × (to ≡ ready → d.health ≡ healthy))
unfolding transition_device transition
transition_device-none_iff d to reason time = (
  λ e. ground (arith, lifecycle_same_iff to ready, health_same_iff d.health healthy),
  λ a. ground (arith, lifecycle_same_iff to ready, health_same_iff d.health healthy),
)

-- what a health report needs to be accepted
pub record AcceptsHealth (d : Device) (to : HealthStatus) (reason : String) (time : ℕ)
    : Type 0 where
  pub known : valid_health to ≡ true
  pub explained : is_empty (trim_space reason) ≡ false
  pub dated : time ≢ 0
  pub permitted : permits health_transitions d.health to ≡ true

-- A health report leaves the lifecycle. Either its status is known and an edge of the table leads to
-- it from the present one, it has a reason and a time, and it is accepted and becomes the health; or
-- it lacks one of these, ends with an error and leaves the health.
pub update_health_effect :
    (d : Device) (to : HealthStatus) (reason : String) (time : ℕ)
    → let (n, e) = update_health d to reason time in
      (n.lifecycle ≡ d.lifecycle)
      × ((AcceptsHealth d to reason time × (e ≡ none) × (n.health ≡ to))
          ⊎ (¬ (AcceptsHealth d to reason time) × (e ≢ none) × (n.health ≡ d.health)))
unfolding update_health
update_health_effect d to reason time = (
  ground arith,
  elim (Option-cases (update_health d to reason time).1) [
    | inl e ↦ inl (ground arith, e, ground arith)
    | inr (x, e) ↦ inr (λ a. ground arith, λ f. cc, ground arith)
  ],
)

-- A device that a lifecycle call has just made ready is schedulable.
pub ready-is_schedulable :
    (d : Device) (reason : String) (time : ℕ)
    → (transition_device d ready reason time).1 ≡ none
    → is_schedulable (transition_device d ready reason time).0 ≡ true
unfolding transition_device transition is_schedulable
ready-is_schedulable d reason time e = ground (arith, health_same_iff d.health healthy)

-- the device after an accepted lifecycle call
pub transition_device-accept :
    (d : Device) (to : DeviceLifecycleStatus) (reason : String) (time : ℕ)
    → Accepts d.lifecycle to reason time
    → (lifecycle_same to ready && not (health_same d.health healthy)) ≡ false
    → transition_device d to reason time
      ≡ (record d { lifecycle = accept d.lifecycle to reason time }, none)
unfolding transition_device
transition_device-accept d to reason time a gate =
    rw (gate, transition_device)
      (rw (transition-accept d.lifecycle to reason time a.known a.explained a.dated a.permitted)
        refl)
