-- ===== src/Domain/Device/Log.antt =====
-- The two logs of a device, over any series of lifecycle calls and health reports.
use alcor_device_farm.Prelude.{
  ◌≡◌, refl, inl, inr, Bool, List, [], ◌∷◌, Bool-cases, not, ◌&&◌, ◌∙◌, ◌==◌,
}
use alcor_device_farm.Text.{trim_space, is_empty}
use alcor_device_farm.Domain.Machine.{record_rejected, permits}
use alcor_device_farm.Domain.Machine.Log.{
  Request, Log, start, moved, refused, call-Log, call-transitions,
}
use alcor_device_farm.Domain.Lifecycle.{
  DeviceLifecycleStatus, ready, lifecycle_same, lifecycle_status, device_transitions,
}
use alcor_device_farm.Domain.Health.{
  HealthStatus, healthy, health_same, health_status, health_transitions, valid_health,
}
use alcor_device_farm.Domain.Device.{Device, transition_device, update_health, health_event}

pub data DeviceCall : Type 0 where
  moves : Request DeviceLifecycleStatus → DeviceCall
  reports : Request HealthStatus → DeviceCall

unfoldable pub device_call : Device → DeviceCall → Device
device_call d (moves r) = (transition_device d r.to r.reason r.time).0
device_call d (reports r) = (update_health d r.to r.reason r.time).0

unfoldable pub device_run : Device → List DeviceCall → Device
unfolding device_call
device_run d [] = d
device_run d (c ∷ cs) = device_run (device_call d c) cs

-- Both logs lead, along the tables, from where the device started to where it is.
pub record Logs (s : DeviceLifecycleStatus) (h : HealthStatus) (d : Device) : Type 0 where
  pub table : d.lifecycle.transitions ≡ device_transitions
  pub lifecycle_log : Log device_transitions s d.lifecycle.events d.lifecycle.status
  pub health_log : Log health_transitions h d.events d.health

abbrev blocks : Device → DeviceLifecycleStatus → Bool
blocks d to = lifecycle_same to ready && not (health_same d.health healthy)

moves-Logs :
    (s : DeviceLifecycleStatus) (h : HealthStatus) (d : Device) (r : Request DeviceLifecycleStatus)
    → Logs s h d
    → Logs s h (transition_device d r.to r.reason r.time).0
unfolding transition_device record_rejected
moves-Logs s h d r l = elim (Bool-cases (blocks d r.to)) [
  | inr e ↦
      rw (e, transition_device)
        (record {
          table = call-transitions d.lifecycle r ∙ l.table;
          lifecycle_log = call-Log device_transitions d.lifecycle s r l.table l.lifecycle_log;
          health_log = l.health_log;
        })
  | inl e ↦ elim (Bool-cases (not (is_empty (trim_space r.reason)) && not (r.time == 0))) [
    | inr f ↦ rw (e, f, transition_device) l
    | inl f ↦
        rw (e, f, transition_device)
          (record {
            table = l.table;
            lifecycle_log = refused _ l.lifecycle_log refl refl;
            health_log = l.health_log;
          })
  ]
]

reports-Logs :
    (s : DeviceLifecycleStatus) (h : HealthStatus) (d : Device) (r : Request HealthStatus)
    → Logs s h d
    → Logs s h (update_health d r.to r.reason r.time).0
unfolding update_health health_event
reports-Logs s h d r l = elim (Bool-cases (valid_health r.to)) [
  | inr e ↦ rw (e, update_health) l
  | inl e ↦ elim (Bool-cases (is_empty (trim_space r.reason))) [
    | inl f ↦ rw (e, f, update_health) l
    | inr f ↦ elim (Bool-cases (r.time == 0)) [
      | inl g ↦ rw (e, f, g, update_health) l
      | inr g ↦ elim (Bool-cases (permits health_transitions d.health r.to)) [
        | inl p ↦
            rw (e, f, g, p, update_health)
              (record {
                table = l.table;
                lifecycle_log = l.lifecycle_log;
                health_log = moved _ r.to l.health_log p refl refl refl;
              })
        | inr p ↦
            rw (e, f, g, p, update_health)
              (record {
                table = l.table;
                lifecycle_log = l.lifecycle_log;
                health_log = refused _ l.health_log refl refl;
              })
      ]
    ]
  ]
]

run-Logs :
    (s : DeviceLifecycleStatus) (h : HealthStatus) (d : Device) (cs : List DeviceCall)
    → Logs s h d
    → Logs s h (device_run d cs)
unfolding device_run device_call
run-Logs s h d [] l = l
run-Logs s h d (moves r ∷ cs) l = run-Logs s h (device_call d (moves r)) cs (moves-Logs s h d r l)
run-Logs s h d (reports r ∷ cs) l =
    run-Logs s h (device_call d (reports r)) cs (reports-Logs s h d r l)

-- From a device without events whose machine has the device table, any series of lifecycle calls
-- and health reports leaves two logs that lead along the tables from the first lifecycle and health
-- to the present ones.
pub device_run-Logs :
    (d : Device) (cs : List DeviceCall)
    → d.lifecycle.transitions ≡ device_transitions
    → d.lifecycle.events ≡ []
    → d.events ≡ []
    → Logs d.lifecycle.status d.health (device_run d cs)
device_run-Logs d cs t e f =
    run-Logs d.lifecycle.status d.health d cs
      (record { table = t; lifecycle_log = rw e start; health_log = rw f start })
