-- ===== src/Fleet.antt =====
-- The devices as the agents of the hosts see them: the columns of the table devices that heartbeats
-- and finished commands read and write, and the entity that decides on their changes
-- (internal/hostcommand/service.go).
pub mod Entity
pub mod Trail
pub mod Recovery
pub mod Discovery
pub mod Operation
pub mod Readiness
pub mod Missing
pub mod Heartbeat
mod Tests
use alcor_device_farm.Prelude.{ℕ, Bool, String, Option, str_eq, if◌then◌else◌}
use alcor_device_farm.Failure.{Result, ok, checked}
use alcor_device_farm.Json.{Json, Fields}
use alcor_device_farm.Domain.Lifecycle.{DeviceLifecycleStatus}
use alcor_device_farm.Domain.Health.{HealthStatus, health_same}
use alcor_device_farm.Domain.Device.{Device, transition_device, update_health}

pub record DeviceColumns : Type 0 where
  pub id : String
  pub host_id : String
  pub provider_ref : String
  pub platform : String
  pub device_kind : String
  pub provider_type : String
  pub serial : String
  pub stf_serial : Option String
  pub adb_endpoint : Option String
  pub appium_endpoint : Option String
  pub capabilities : Fields
  pub lifecycle_status : DeviceLifecycleStatus
  pub health_status : HealthStatus
  pub health_reason : Option String
  pub consecutive_failures : ℕ
  pub last_seen_at : Option ℕ
  pub created_at : ℕ
  pub updated_at : ℕ
  pub image_id : Option String
  pub pending_image_id : Option String
  pub runtime_profile_override : Option Json
  pub pending_runtime_profile : Option Json
  pub reimage_status : String
  pub reimage_error : Option String
  pub runtime_profile_update_status : String
  pub runtime_profile_update_error : Option String

-- device_health_events
pub record HealthEventRow : Type 0 where
  pub id : String
  pub device_id : String
  pub source : String
  pub event_type : String
  pub severity : String
  pub reason : String
  pub payload : Fields
  pub observed_at : ℕ

abbrev pub has_id : String → DeviceColumns → Bool
has_id id d = str_eq d.id id

-- aggregate.Transition
abbrev pub become : DeviceLifecycleStatus → String → ℕ → Device → Result Device
become to reason now d = checked (transition_device d to reason now)

-- aggregate.UpdateHealth
abbrev pub report : HealthStatus → String → ℕ → Device → Result Device
report to reason now d = checked (update_health d to reason now)

-- aggregate.UpdateHealth, unless that is the health already
abbrev pub report_change : HealthStatus → String → ℕ → Device → Result Device
report_change to reason now d =
    let reported = report to reason now d in if health_same d.health to then ok d else reported
