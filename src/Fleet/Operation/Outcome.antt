-- ===== src/Fleet/Operation/Outcome.antt =====
-- internal/hostcommand/service.go: what an agent returns for an operation on a device, and the parts
-- that the reconciliations of the operations share.
use alcor_device_farm.Prelude.{
  ℕ, suc, Bool, ◌&&◌, not, String, Option, none, some, List, [], ◌∷◌, str_eq, ltb, if◌then◌else◌,
}
use alcor_device_farm.Text.{trim_space, is_empty}
use alcor_device_farm.Failure.{Result, ok, ◌>>=◌, require, no_id}
use alcor_device_farm.Json.{Json, Fields, lookup, set_field}
use alcor_device_farm.Domain.Command.{CommandStatus, command_same}
use alcor_device_farm.Domain.Lifecycle.{DeviceLifecycleStatus}
use alcor_device_farm.Domain.Health.{HealthStatus}
use alcor_device_farm.Domain.Device.{Device}
use alcor_device_farm.HostCommand.Table.{CommandRow}
use alcor_device_farm.Fleet.{DeviceColumns, HealthEventRow, become, report_change}

-- managementOperationResult. The generation is 0 for a number that is not positive, and the
-- components are a list of fields.
pub record OperationResult : Type 0 where
  pub platform : String
  pub state : String
  pub generation : ℕ
  pub reimage_applied : Bool
  pub runtime_profile_update_applied : Bool
  pub rollback_restored : Bool
  pub serial : String
  pub provider_id : String
  pub adb_endpoint : String
  pub appium_endpoint : String
  pub appium_udid : String
  pub online : Bool
  pub adb_online : Bool
  pub boot_completed : Bool
  pub appium_healthy : Bool
  pub components : List (String × String)

-- What comes from outside: encoding/json on the result of a command, strings.EqualFold, the new id if
-- the generator gave one, and the clock of the database.
pub record Outside : Type 0 where
  pub decode : Option Json → Option OperationResult
  pub decode_deleted : Option Json → Option Bool
  pub equal_fold : String → String → Bool
  pub new_id : Option String
  pub now : ℕ

-- components[name], "" for a missing one
abbrev pub component : String → List (String × String) → String
component name [] = ""
component name ((key, status) ∷ rest) = if str_eq key name then status else component name rest

abbrev passed : String → OperationResult → Bool
passed name value = str_eq (component name value.components) "passed"

-- validManagementOperationResult
unfoldable pub valid_operation_result : Outside → OperationResult → Bool
valid_operation_result o value =
    ltb 0 value.generation
    && not (is_empty value.serial)
    && not (is_empty value.appium_endpoint)
    && not (is_empty value.appium_udid)
    && value.online
    && value.boot_completed
    && value.appium_healthy
    && (if o.equal_fold value.platform "ios"
        then str_eq value.state "running"
          && passed "transport" value
          && passed "os_ready" value
          && passed "automation" value
          && passed "router" value
        else not (is_empty value.adb_endpoint) && value.adb_online)

-- the result of a command, if it is a valid one
abbrev pub valid_result : Outside → CommandRow → Option OperationResult
valid_result o c = elim (o.decode c.result) [
  | none ↦ none
  | some value ↦ if valid_operation_result o value then some value else none
]

abbrev pub has_status : CommandStatus → CommandRow → Bool
has_status status c = command_same c.status status

-- the stored error code, or ""
abbrev pub error_code : CommandRow → String
error_code c = elim c.error_code [ none ↦ "" | some code ↦ code ]

-- the code of a failure
abbrev pub failure_code : CommandRow → String
failure_code c =
    if not (is_empty (error_code c))
    then error_code c
    else if has_status CommandStatus.succeeded c
    then "COMMAND_RESULT_INVALID"
    else "AGENT_COMMAND_FAILED"

-- commandPayloadString
abbrev pub payload_string : Fields → String → String
payload_string payload key = elim (lookup key payload) [
  | some (Json.text s) ↦ trim_space s
  | _ ↦ ""
]

-- the entity after a failure, where a device in quarantine stays there
abbrev pub isolate : String → ℕ → Device → Result Device
isolate reason now d = do
  unhealthy ← report_change HealthStatus.unhealthy reason now d
  become DeviceLifecycleStatus.quarantined reason now unhealthy

-- the columns after a failure
abbrev pub failed_columns : String → ℕ → Device → DeviceColumns → DeviceColumns
failed_columns reason now a d = record d {
  lifecycle_status = a.lifecycle.status;
  health_status = a.health;
  health_reason = some reason;
  consecutive_failures = suc d.consecutive_failures;
  updated_at = now;
}

-- the columns of the connection that a result reports
abbrev pub connected : OperationResult → Option String → Fields → DeviceColumns → DeviceColumns
connected value adb capabilities d = record d {
  serial = value.serial;
  adb_endpoint = adb;
  appium_endpoint = some value.appium_endpoint;
  capabilities = set_field "appiumUdid" (Json.text value.appium_udid) capabilities;
}

-- What a reconciliation changes: the columns of the device and a new event, or nothing.
pub record Done : Type 0 where
  pub columns : DeviceColumns
  pub event : HealthEventRow

-- the end of every reconciliation that changes the device
unfoldable pub finish :
    Outside → String → String → String → Fields → DeviceColumns → Result (Option Done)
finish o event_type severity reason payload columns = do
  id ← require o.new_id no_id
  ok (
      some (record {
        columns = columns;
        event = record {
          id = id;
          device_id = columns.id;
          source = "agent";
          event_type = event_type;
          severity = severity;
          reason = reason;
          payload = payload;
          observed_at = o.now;
        };
      }))

-- the payload of the events on a command
abbrev pub event_payload : CommandRow → String → Fields
event_payload c code = Fields.field "command_id" (Json.text c.id) (
    Fields.field "command_type" (Json.text c.command_type)
      (Fields.field "error_code" (Json.text code) Fields.end))

-- the event on a simple operation
unfoldable pub finish_operation :
    Outside → CommandRow → Bool → String → String → DeviceColumns → Result (Option Done)
unfolding finish
finish_operation o c succeeded code reason columns =
    finish o
      (if succeeded
        then "device_management_operation_succeeded"
        else "device_management_operation_failed")
      (if succeeded then "info" else "error") reason (event_payload c code) columns
