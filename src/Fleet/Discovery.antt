-- ===== src/Fleet/Discovery.antt =====
-- internal/hostcommand/service.go, updateDiscoveredDevice: what a heartbeat changes of one device.
pub mod Laws
pub mod Recovered
use alcor_device_farm.Prelude.{
  ℕ, Bool, true, false, ◌&&◌, ◌||◌, not, String, Option, none, some, List, [], ◌∷◌, str_eq, any,
  if◌then◌else◌,
}
use alcor_device_farm.Text.{trim_space, is_empty, join}
use alcor_device_farm.Failure.{
  Result, ok, err, ◌>>=◌, ◌>>◌, guard, from_domain, invalid_argument, device_identity_conflict,
}
use alcor_device_farm.Json.{Json, Fields, lookup, set_field, merge}
use alcor_device_farm.Sensitive.{redact_map}
use alcor_device_farm.Domain.Lifecycle.{DeviceLifecycleStatus, lifecycle_same, lifecycle_status_of}
use alcor_device_farm.Domain.Health.{HealthStatus, health_same, health_name, health_status_of}
use alcor_device_farm.Domain.Reasons.{is_stf_failure_reason, is_system_recoverable}
use alcor_device_farm.Domain.Device.{Device, restore_device}
use alcor_device_farm.Fleet.{DeviceColumns, report}
use alcor_device_farm.Fleet.Recovery.{recover_from_host_outage, apply_discovered_lifecycle}

pub record DiscoveredDevice : Type 0 where
  pub provider_ref : String
  pub serial : String
  pub platform : String
  pub device_kind : String
  pub provider_type : String
  pub lifecycle_status : String
  pub health_status : String
  pub connection : Fields
  pub capabilities : Fields
  pub components : List (String × String)
  pub runtime_profile : Fields

-- optionalConnectionValue
unfoldable pub optional_connection_value : Fields → String → Result (Option String)
optional_connection_value connection key = elim (lookup key connection) [
  | none ↦ ok none
  | some Json.null ↦ ok none
  | some (Json.text s) ↦ ok (if is_empty (trim_space s) then none else some (trim_space s))
  | some _ ↦ err invalid_argument
]

pub record Connection : Type 0 where
  pub adb : Option String
  pub appium : Option String
  pub appium_udid : Option String

-- discoveredConnection
unfoldable pub discovered_connection : Fields → Result Connection
unfolding optional_connection_value
discovered_connection connection = do
  adb ← optional_connection_value connection "adb_endpoint"
  appium ← optional_connection_value connection "appium_endpoint"
  appium_udid ← optional_connection_value connection "appium_udid"
  ok (record { adb = adb; appium = appium; appium_udid = appium_udid })

-- What the query reads besides the columns of the device: whether an operation on it is in flight,
-- and the lifecycle that its reservation asks for, "" for none.
pub record Situation : Type 0 where
  pub operation_in_flight : Bool
  pub assignment_target : String

abbrev pub is_in : DeviceLifecycleStatus → DeviceColumns → Bool
is_in status d = lifecycle_same d.lifecycle_status status

abbrev with_reason : (String → Bool) → Option String → Bool
with_reason p none = false
with_reason p (some reason) = p reason

abbrev pub reports_health : HealthStatus → DiscoveredDevice → Bool
reports_health status discovered = health_same (health_status_of discovered.health_status) status

-- recoveredAutomatically
unfoldable pub recovers : DeviceColumns → DiscoveredDevice → Situation → Bool
recovers d discovered now_in =
    is_in DeviceLifecycleStatus.quarantined d
    && with_reason (λ reason. is_system_recoverable reason && not (is_stf_failure_reason reason))
        d.health_reason
    && reports_health HealthStatus.healthy discovered
    && not now_in.operation_in_flight

-- May the heartbeat change the health, the lifecycle and the reason?
unfoldable pub is_open : DeviceColumns → DiscoveredDevice → Situation → Bool
unfolding recovers
is_open d discovered now_in =
    (not (is_in DeviceLifecycleStatus.quarantined d) || recovers d discovered now_in)
    && not (is_in DeviceLifecycleStatus.deleted d)
    && not now_in.operation_in_flight

-- preserveSTFHealth
unfoldable pub preserves_stf : DeviceColumns → DiscoveredDevice → Situation → Bool
unfolding is_open
preserves_stf d discovered now_in =
    is_open d discovered now_in
    && reports_health HealthStatus.healthy discovered
    && with_reason is_stf_failure_reason d.health_reason

-- A reservation decides on the lifecycle.
abbrev pub is_used : DeviceColumns → Bool
is_used d =
    is_in DeviceLifecycleStatus.reserved d
    || is_in DeviceLifecycleStatus.busy d
    || is_in DeviceLifecycleStatus.recycling d

-- the entity after the observation
unfoldable pub observed : DeviceColumns → DiscoveredDevice → Situation → ℕ → Result Device
unfolding recovers is_open preserves_stf
observed d discovered now_in now = do
  restored ← from_domain (restore_device d.id d.lifecycle_status d.health_status)
  let recovering = recover_from_host_outage restored now_in.assignment_target now
  recovered ← (if recovers d discovered now_in then recovering else ok restored)
  let incoming = health_status_of discovered.health_status
  let reporting = report incoming "agent heartbeat health observation" now recovered
  reported ←
      (if is_open d discovered now_in
          && not (preserves_stf d discovered now_in)
          && not (health_same recovered.health incoming)
        then reporting
        else ok recovered)
  let following =
      apply_discovered_lifecycle reported (lifecycle_status_of discovered.lifecycle_status) now
  if is_open d discovered now_in && not (is_used d) then following else ok reported

unfoldable pub component_fields : List (String × String) → Fields
component_fields [] = Fields.end
component_fields ((name, status) ∷ rest) =
    Fields.field name (Json.text status) (component_fields rest)

abbrev with_components : List (String × String) → Fields → Fields
with_components [] found = found
with_components (c ∷ cs) found =
    set_field "componentHealth" (Json.object (component_fields (c ∷ cs))) found

abbrev with_udid : Option String → Fields → Fields
with_udid none capabilities = capabilities
with_udid (some udid) capabilities = set_field "appiumUdid" (Json.text udid) capabilities

abbrev or_else : Option String → Option String → Option String
or_else none old = old
or_else (some new) old = some new

-- the columns after the UPDATE
unfoldable pub discovered_columns :
    (String → String)
    → (String → String)
    → DeviceColumns
    → DiscoveredDevice
    → Situation
    → ℕ
    → Connection
    → Device
    → DeviceColumns
discovered_columns lower redact_text d discovered now_in now connection aggregate =
    let is_healthy = health_same aggregate.health HealthStatus.healthy in
    let preserved = preserves_stf d discovered now_in in
    record d {
      serial = if is_empty discovered.serial then d.serial else discovered.serial;
      adb_endpoint = or_else connection.adb d.adb_endpoint;
      appium_endpoint = or_else connection.appium d.appium_endpoint;
      capabilities = with_udid connection.appium_udid (
          merge d.capabilities (
            with_components discovered.components
              (redact_map lower redact_text discovered.capabilities)));
      lifecycle_status = aggregate.lifecycle.status;
      health_status = aggregate.health;
      health_reason =
          if is_open d discovered now_in && not preserved
          then (if is_healthy
              then none
              else some (join "agent heartbeat reported " (health_name aggregate.health)))
          else d.health_reason;
      consecutive_failures =
          if recovers d discovered now_in
            || (not preserved
                && is_healthy
                && not (is_in DeviceLifecycleStatus.quarantined d)
                && not (is_in DeviceLifecycleStatus.deleted d)
                && not now_in.operation_in_flight)
          then 0
          else d.consecutive_failures;
      last_seen_at = some now;
      updated_at = now;
    }

abbrev differs : String → String → Bool
differs reported current = not (is_empty reported) && not (str_eq reported current)

-- updateDiscoveredDevice on the row of the device
unfoldable pub update_discovered_device :
    (String → String)
    → (String → String)
    → DeviceColumns
    → DiscoveredDevice
    → Situation
    → ℕ
    → Result DeviceColumns
unfolding discovered_connection observed discovered_columns component_fields
update_discovered_device lower redact_text d discovered now_in now = do
  guard
      (not (differs discovered.platform d.platform)
        && not (differs discovered.device_kind d.device_kind)
        && not (differs discovered.provider_type d.provider_type))
      device_identity_conflict
  connection ← discovered_connection discovered.connection
  aggregate ← observed d discovered now_in now
  ok (discovered_columns lower redact_text d discovered now_in now connection aggregate)
