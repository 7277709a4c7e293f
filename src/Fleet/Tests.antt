-- ===== src/Fleet/Tests.antt =====
-- The theorems on the devices of a host at concrete devices.
use alcor_device_farm.Prelude.{◌≡◌, refl, inl, false, true, String, none, some, [], ◌∷◌}
use alcor_device_farm.Text.{is_identifier, trim_space, has_prefix, size}
use alcor_device_farm.Failure.{ok, ◌>>=◌, guard, require, checked, from_domain, Yields}
use alcor_device_farm.Json.{Json, Fields, lookup, merge}
use alcor_device_farm.Sensitive.{redact_map}
use alcor_device_farm.Domain.Reasons.{
  is_system_recoverable, is_stf_failure_reason, host_unavailable,
}
use alcor_device_farm.Domain.Command.{CommandStatus}
use alcor_device_farm.Domain.Lifecycle.{DeviceLifecycleStatus}
use alcor_device_farm.Domain.Health.{HealthStatus, valid_health}
use alcor_device_farm.Domain.Host.{HostStatus}
use alcor_device_farm.Domain.Device.{restore_device, transition_device, update_health}
use alcor_device_farm.Store.Rows.{find_row}
use alcor_device_farm.HostCommand.Table.{CommandRow}
use alcor_device_farm.Fleet.{DeviceColumns}
use alcor_device_farm.Fleet.Recovery.Laws.{assigned_lifecycle}
use alcor_device_farm.Fleet.Discovery.{
  DiscoveredDevice, Situation, update_discovered_device, discovered_connection, Connection,
  optional_connection_value, discovered_columns,
}
use alcor_device_farm.Fleet.Discovery.Laws.{Shielded, update-shielded}
use alcor_device_farm.Fleet.Discovery.Recovered.{CameBack, update-recovered}
use alcor_device_farm.Fleet.Operation.Outcome.{Outside, Done, event_payload}
use alcor_device_farm.Fleet.Operation.{
  request_of, reconcile_kind, reconcile_request, reconcile_operation,
}
use alcor_device_farm.Fleet.Operation.Laws.{Follows, Names, is_same, reconcile_operation-Follows}
use alcor_device_farm.Fleet.Operation.Isolation.{Isolates, reconcile_kind-Isolates}
use alcor_device_farm.Fleet.Missing.{
  missing_reason, missing_event, is_missing, quarantine_missing_devices, Swept,
  quarantine_missing_devices-Swept,
}
use alcor_device_farm.Fleet.Heartbeat.{admit_devices}
use alcor_device_farm.Fleet.Heartbeat.Inventory.{IsInventory, admit_devices-IsInventory}
use alcor_device_farm.Fleet.Readiness.{
  HostReadiness, IsManaged, observe_readiness, observe-repaired, observe-manual,
}

abbrev phone : DeviceColumns
phone = record {
  id = "device_0000000001";
  host_id = "host_000000000001";
  provider_ref = "emulator-1";
  platform = "android";
  device_kind = "emulator";
  provider_type = "docker";
  serial = "serial-1";
  stf_serial = none;
  adb_endpoint = none;
  appium_endpoint = none;
  capabilities = Fields.end;
  lifecycle_status = DeviceLifecycleStatus.busy;
  health_status = HealthStatus.healthy;
  health_reason = none;
  consecutive_failures = 2;
  last_seen_at = none;
  created_at = 1;
  updated_at = 1;
  image_id = none;
  pending_image_id = none;
  runtime_profile_override = none;
  pending_runtime_profile = none;
  reimage_status = "idle";
  reimage_error = none;
  runtime_profile_update_status = "idle";
  runtime_profile_update_error = none;
}

-- out because its host was away
abbrev lost : DeviceColumns
lost = record phone {
  lifecycle_status = DeviceLifecycleStatus.quarantined;
  health_status = HealthStatus.unhealthy;
  health_reason = some host_unavailable;
}

abbrev seen : DiscoveredDevice
seen = record {
  provider_ref = "emulator-1";
  serial = "";
  platform = "android";
  device_kind = "";
  provider_type = "docker";
  lifecycle_status = "ready";
  health_status = "healthy";
  connection = Fields.field "adb_endpoint" (Json.text "10.0.0.1:5555") Fields.end;
  capabilities = Fields.end;
  components = [];
  runtime_profile = Fields.end;
}

abbrev held : Situation
held = record { operation_in_flight = false; assignment_target = "busy" }

lost-CameBack : CameBack lost seen held
unfolding is_system_recoverable is_stf_failure_reason has_prefix trim_space
lost-CameBack = record {
  quarantined = refl;
  reason = host_unavailable;
  reasoned = refl;
  recoverable = refl;
  not_stf = refl;
  idle = refl;
  ready = refl;
  healthy = refl;
}

abbrev connection : Connection
connection = record { adb = some "10.0.0.1:5555"; appium = none; appium_udid = none }

seen-connection : discovered_connection seen.connection ≡ ok connection
unfolding discovered_connection optional_connection_value lookup trim_space ◌>>=◌
seen-connection = refl

phone-is_identifier : is_identifier phone.id ≡ true
unfolding is_identifier
phone-is_identifier = refl

unhealthy-valid : valid_health HealthStatus.unhealthy ≡ true
unfolding valid_health
unhealthy-valid = refl

update-recovered_example :
    Yields
      (λ e.
        (e.lifecycle_status ≡ assigned_lifecycle "busy")
        × (e.health_status ≡ HealthStatus.healthy)
        × (e.health_reason ≡ none)
        × (e.consecutive_failures ≡ 0))
      (update_discovered_device (λ s. s) (λ s. s) lost seen held 20)
update-recovered_example =
    update-recovered (λ s. s) (λ s. s) lost seen held 20 connection lost-CameBack
      phone-is_identifier unhealthy-valid (λ e. cc) refl refl refl seen-connection

-- the busy phone after the heartbeat
abbrev seen_phone : DeviceColumns
seen_phone = record phone {
  adb_endpoint = some "10.0.0.1:5555";
  consecutive_failures = 0;
  last_seen_at = some 20;
  updated_at = 20;
}

abbrev in_work : Situation
in_work = record { operation_in_flight = true; assignment_target = "" }

abbrev working_lost : DeviceColumns
working_lost = record lost {
  adb_endpoint = some "10.0.0.1:5555";
  last_seen_at = some 20;
  updated_at = 20;
}

lost-seen : update_discovered_device (λ s. s) (λ s. s) lost seen in_work 20 ≡ ok working_lost
unfolding update_discovered_device discovered_columns ◌>>=◌ guard lookup from_domain restore_device
    is_identifier is_system_recoverable trim_space has_prefix merge redact_map
lost-seen = refl

update-shielded_example :
    (working_lost.lifecycle_status ≡ lost.lifecycle_status)
    × (working_lost.health_status ≡ lost.health_status)
    × (working_lost.health_reason ≡ lost.health_reason)
    × (working_lost.consecutive_failures ≡ lost.consecutive_failures)
update-shielded_example =
    update-shielded (λ s. s) (λ s. s) lost seen in_work 20 (Shielded.in_flight refl) lost-seen

-- a start that failed
abbrev start_payload : Fields
start_payload = Fields.field "operation_source" (Json.text "management") (
    Fields.field "device_id" (Json.text "device_0000000001") (
      Fields.field "provider_ref" (Json.text "emulator-1") (
        Fields.field "operation_state" (Json.text "booting")
          (Fields.field "operation_kind" (Json.text "start") Fields.end))))

abbrev failed_start : CommandRow
failed_start = record {
  id = "command_00000001";
  host_id = "host_000000000001";
  command_type = "start";
  payload = Json.object start_payload;
  status = CommandStatus.failed;
  lease_token = none;
  lease_expires_at = none;
  attempts = 3;
  max_attempts = 3;
  idempotency_key = "key_00000001";
  created_at = 10;
  updated_at = 30;
  result = none;
  error_code = none;
  completed_at = some 30;
}

abbrev around : Outside
around = record {
  decode = λ result. none;
  decode_deleted = λ result. none;
  equal_fold = λ a b. false;
  new_id = some "event_0000000001";
  now = 40;
}

abbrev booting : DeviceColumns
booting = record phone {
  lifecycle_status = DeviceLifecycleStatus.booting;
  health_status = HealthStatus.unknown;
}

abbrev failure : String
failure = "AGENT_COMMAND_FAILED：设备管理命令未产生健康设备（start）"

abbrev isolated : Done
isolated = record {
  columns = record booting {
    lifecycle_status = DeviceLifecycleStatus.quarantined;
    health_status = HealthStatus.unhealthy;
    health_reason = some failure;
    consecutive_failures = 3;
    updated_at = 40;
  };
  event = record {
    id = "event_0000000001";
    device_id = "device_0000000001";
    source = "agent";
    event_type = "device_management_operation_failed";
    severity = "error";
    reason = failure;
    payload = event_payload failed_start "AGENT_COMMAND_FAILED";
    observed_at = 40;
  };
}

start-isolated :
    reconcile_kind around failed_start start_payload (request_of start_payload) booting
    ≡ ok (some isolated)
unfolding reconcile_kind lookup trim_space ◌>>=◌ from_domain restore_device is_identifier checked
    update_health transition_device require
start-isolated = refl

reconcile_kind-Isolates_example : Isolates booting (some isolated)
reconcile_kind-Isolates_example =
    reconcile_kind-Isolates around failed_start start_payload (request_of start_payload) booting
      refl refl start-isolated

operation-isolated : reconcile_operation around (booting ∷ []) failed_start ≡ ok (some isolated)
unfolding reconcile_operation reconcile_request lookup trim_space size find_row ◌>>=◌ from_domain
    restore_device is_identifier checked update_health transition_device require
operation-isolated = refl

reconcile_operation-Follows_example :
    (d : DeviceColumns) × Names failed_start d
    × (find_row (is_same d) (booting ∷ []) ≡ some d)
    × Follows d isolated.columns
reconcile_operation-Follows_example =
    reconcile_operation-Follows around (booting ∷ []) failed_start operation-isolated

abbrev online : HostReadiness
online = record { status = HostStatus.online; auto_maintenance = false; failure_started_at = none }

abbrev draining : HostReadiness
draining = record {
  status = HostStatus.draining;
  auto_maintenance = false;
  failure_started_at = none;
}

host-is_identifier : is_identifier "host_000000000001" ≡ true
unfolding is_identifier
host-is_identifier = refl

observe-repaired_example :
    (d : HostReadiness) × (observe_readiness "host_000000000001" online (some false) 20 ≡ ok d)
    × (d.status ≡ HostStatus.maintenance)
    × (d.failure_started_at ≡ some 20)
    × (observe_readiness "host_000000000001" d (some true) 50 ≡ ok online)
observe-repaired_example =
    observe-repaired "host_000000000001" online 20 50 host-is_identifier (λ e. cc) (λ e. cc)
      (IsManaged.is_online refl)

observe-manual_example :
    observe_readiness "host_000000000001" draining (some false) 20 ≡ ok draining
observe-manual_example = observe-manual "host_000000000001" draining (some false) 20 (inl refl)

abbrev simulator : DeviceColumns
simulator = record phone {
  id = "device_0000000002";
  provider_ref = "simulator-1";
  platform = "ios";
  device_kind = "simulator";
  provider_type = "appium_device_farm_ios";
  lifecycle_status = DeviceLifecycleStatus.ready;
  last_seen_at = some 5;
}

abbrev missed : DeviceColumns
missed = record simulator {
  lifecycle_status = DeviceLifecycleStatus.quarantined;
  health_status = HealthStatus.unhealthy;
  health_reason = some missing_reason;
  consecutive_failures = 3;
  updated_at = 40000000;
}

simulator-missed :
    quarantine_missing_devices
      (λ id. some "event_0000000001")
      (λ id. false)
      "host_000000000001"
      ("emulator-1" ∷ [])
      40000000
      (phone ∷ simulator ∷ [])
    ≡ ok (
      phone ∷ missed ∷ [],
      missing_event "event_0000000001" "host_000000000001" "device_0000000002" 40000000 ∷ [],
    )
unfolding quarantine_missing_devices ◌>>=◌ from_domain restore_device is_identifier checked
    update_health trim_space transition_device require
simulator-missed = refl

quarantine_missing_devices-Swept_example :
    Swept
      (is_missing (λ id. false) "host_000000000001" ("emulator-1" ∷ []) 40000000)
      (phone ∷ simulator ∷ [])
      (phone ∷ missed ∷ [])
      (missing_event "event_0000000001" "host_000000000001" "device_0000000002" 40000000 ∷ [])
quarantine_missing_devices-Swept_example =
    quarantine_missing_devices-Swept (λ id. some "event_0000000001") (λ id. false)
      "host_000000000001" ("emulator-1" ∷ []) 40000000 (phone ∷ simulator ∷ []) simulator-missed

abbrev reported : DiscoveredDevice
reported = record seen {
  serial = "serial-1";
  provider_type = "docker_emulator";
  components = ("transport", "passed") ∷ [];
}

reported-admitted : admit_devices (λ p. true) (λ s. s) [] [] (reported ∷ []) ≡ ok (reported ∷ [])
unfolding admit_devices ◌>>=◌ guard trim_space discovered_connection lookup
reported-admitted = refl

admit_devices-IsInventory_example : IsInventory (λ p. true) (reported ∷ [])
admit_devices-IsInventory_example =
    admit_devices-IsInventory (λ p. true) (λ s. s) (reported ∷ []) reported-admitted
