-- ===== src/Fleet/Operation/Replacements.antt =====
-- internal/hostcommand/service.go, reconcileManagementReimage and
-- reconcileManagementRuntimeProfileUpdate: operations that replace the image or the profile of a
-- device, after which the agent may have gone back to the old one.
use alcor_device_farm.Prelude.{
  ℕ, Bool, true, false, ◌&&◌, ◌||◌, String, Option, none, some, if◌then◌else◌,
}
use alcor_device_farm.Text.{is_empty, join}
use alcor_device_farm.Failure.{Result, ok, err, ◌>>=◌, check_violation}
use alcor_device_farm.Json.{Json, Fields, lookup, merge}
use alcor_device_farm.Domain.Command.{CommandStatus}
use alcor_device_farm.Domain.Lifecycle.{DeviceLifecycleStatus}
use alcor_device_farm.Domain.Health.{HealthStatus}
use alcor_device_farm.Domain.Reasons.{stf_readiness_stabilization}
use alcor_device_farm.Domain.Device.{Device}
use alcor_device_farm.HostCommand.Table.{CommandRow}
use alcor_device_farm.Fleet.{DeviceColumns, become, report, report_change}
use alcor_device_farm.Fleet.Operation.Outcome.{
  OperationResult, Outside, Done, valid_result, has_status, error_code, payload_string, isolate,
  failed_columns, connected, finish,
}
use alcor_device_farm.Fleet.Operation.Kinds.{restored, is_at, step_from, isolate_once}

-- How a replacement ended: with the new one, back with the old one, or with neither.
pub data Ended : Type 0 where
  applied rolled_back : OperationResult → Ended
  lost : Ended

-- `flag` is the field that says that the new one was applied.
abbrev pub ended : Outside → CommandRow → (OperationResult → Bool) → Ended
ended o c flag = elim (valid_result o c) [
  | none ↦ lost
  | some value ↦
      if has_status CommandStatus.succeeded c && flag value
      then applied value
      else if has_status CommandStatus.failed c && value.rollback_restored
      then rolled_back value
      else lost
]

abbrev pub is_applied : Ended → Bool
is_applied (applied value) = true
is_applied _ = false

abbrev pub is_rolled_back : Ended → Bool
is_rolled_back (rolled_back value) = true
is_rolled_back _ = false

-- the code, where `fallback` stands in for a missing one unless the new one was applied
abbrev pub replacement_code : CommandRow → String → Ended → String
replacement_code c fallback (applied value) = error_code c
replacement_code c fallback _ = if is_empty (error_code c) then fallback else error_code c

-- an object that the payload has at a key; CHECK constraints refuse any other value for a profile
abbrev pub profile_at : String → Fields → Result Json
profile_at key payload = elim (lookup key payload) [
  | some (Json.object fields) ↦ ok (Json.object fields)
  | _ ↦ err check_violation
]

abbrev pub object_at : String → Fields → Fields
object_at key payload = elim (lookup key payload) [
  | some (Json.object fields) ↦ fields
  | _ ↦ Fields.end
]

-- the columns of a device that is ready again
abbrev pub ready_columns :
    Outside → OperationResult → Fields → Device → DeviceColumns → DeviceColumns
ready_columns o value capabilities a d =
    connected value (some value.adb_endpoint) capabilities (record d {
      lifecycle_status = a.lifecycle.status;
      health_status = a.health;
      health_reason = some stf_readiness_stabilization;
      consecutive_failures = 0;
      last_seen_at = some o.now;
      updated_at = o.now;
    })

abbrev replacement_payload : CommandRow → String → Ended → Fields → Fields
replacement_payload c code how more = Fields.field "command_id" (Json.text c.id) (
    Fields.field "command_type" (Json.text c.command_type) (
      Fields.field "rollback_restored" (Json.bool (is_rolled_back how))
        (Fields.field "error_code" (Json.text code) more)))

abbrev finish_replacement :
    Outside
    → CommandRow
    → String
    → String
    → String
    → Ended
    → Fields
    → DeviceColumns
    → Result (Option Done)
finish_replacement o c event code reason how more columns =
    finish o (join event (if is_applied how then "_succeeded" else "_failed"))
      (if is_applied how then "info" else "error") reason (replacement_payload c code how more)
      columns

-- The entity after a reimage that left a healthy device, ready but still unknown to STF; `none` where
-- the device was not being provisioned or booted.
unfoldable pub reimaged : String → ℕ → Device → Result (Option Device)
reimaged reason now a = do
  healthy ← report_change HealthStatus.healthy reason now a
  booting ←
      step_from (is_at DeviceLifecycleStatus.provisioning healthy) DeviceLifecycleStatus.booting
        reason now healthy
  let ending = do
    ready ← become DeviceLifecycleStatus.ready reason now booting
    waiting ← report HealthStatus.unhealthy stf_readiness_stabilization now ready
    ok (some waiting)
  if is_at DeviceLifecycleStatus.booting booting then ending else ok none

-- The same for an update of the profile, which a heartbeat may have overtaken.
unfoldable pub reprofiled : String → ℕ → Device → Result (Option Device)
reprofiled reason now a = do
  healthy ← report_change HealthStatus.healthy reason now a
  provisioning ←
      step_from (is_at DeviceLifecycleStatus.quarantined healthy) DeviceLifecycleStatus.provisioning
        reason now healthy
  booting ←
      step_from (is_at DeviceLifecycleStatus.provisioning provisioning)
        DeviceLifecycleStatus.booting reason now provisioning
  let was_booting = is_at DeviceLifecycleStatus.booting booting
  ready ← step_from was_booting DeviceLifecycleStatus.ready reason now booting
  let ending = do
    waiting ← report HealthStatus.unhealthy stf_readiness_stabilization now ready
    ok (some waiting)
  if was_booting || is_at DeviceLifecycleStatus.ready ready then ending else ok none

-- the entity of a device that is ready again, with the columns that `change` makes of it
abbrev pub when_ready : Option Device → (Device → Result (Option Done)) → Result (Option Done)
when_ready none change = ok none
when_ready (some a) change = change a

reimage_reason : String → Ended → String
reimage_reason code (applied value) = "management reimage applied target image"
reimage_reason code (rolled_back value) = join code ": target failed; previous image was restored"
reimage_reason code lost =
    join code ": target and previous image restore did not produce a healthy device"

-- reconcileManagementReimage
unfoldable pub reconcile_reimage :
    Outside → CommandRow → Fields → DeviceColumns → Result (Option Done)
unfolding reimage_reason reimaged finish
reconcile_reimage o c payload d = do
  let how = ended o c (λ value. value.reimage_applied)
  let code = replacement_code c "REIMAGE_COMMAND_FAILED" how
  let reason = reimage_reason code how
  let image = payload_string payload "image_id"
  let close =
      finish_replacement o c "device_reimage" code reason how
        (Fields.field "target_image_id" (Json.text image) Fields.end)
  a ← restored d
  elim how [
    | applied value ↦ do
      ready ← reimaged reason o.now a
      when_ready ready λ b. do
        profile ← profile_at "runtime_profile" payload
        let merged = merge d.capabilities (object_at "capabilities" payload)
        close (
            ready_columns o value merged b (record d {
              image_id = some image;
              runtime_profile_override = some profile;
              pending_image_id = none;
              pending_runtime_profile = none;
              reimage_status = "idle";
              reimage_error = none;
            }))
    | rolled_back value ↦ do
      ready ← reimaged reason o.now a
      when_ready ready λ b. close (
          ready_columns o value d.capabilities b (record d {
            pending_image_id = none;
            pending_runtime_profile = none;
            reimage_status = "failed";
            reimage_error = some reason;
          }))
    | lost ↦ do
      isolated ← isolate reason o.now a
      close (
          failed_columns reason o.now isolated (record d {
            pending_image_id = none;
            pending_runtime_profile = none;
            reimage_status = "failed";
            reimage_error = some reason;
          }))
  ]

profile_reason : String → Ended → String
profile_reason code (applied value) = "management runtime profile update applied"
profile_reason code (rolled_back value) =
    join code ": target failed; previous runtime profile was restored"
profile_reason code lost =
    join code ": target and previous runtime profile restore did not produce a healthy device"

-- reconcileManagementRuntimeProfileUpdate
unfoldable pub reconcile_profile :
    Outside → CommandRow → Fields → DeviceColumns → Result (Option Done)
unfolding profile_reason reprofiled finish
reconcile_profile o c payload d = do
  let how = ended o c (λ value. value.runtime_profile_update_applied)
  let code = replacement_code c "RUNTIME_PROFILE_UPDATE_FAILED" how
  let reason = profile_reason code how
  let close = finish_replacement o c "device_runtime_profile_update" code reason how Fields.end
  a ← restored d
  elim how [
    | applied value ↦ do
      ready ← reprofiled reason o.now a
      when_ready ready λ b. do
        profile ← profile_at "runtime_profile" payload
        close (
            ready_columns o value d.capabilities b (record d {
              runtime_profile_override = some profile;
              pending_runtime_profile = none;
              runtime_profile_update_status = "idle";
              runtime_profile_update_error = none;
            }))
    | rolled_back value ↦ do
      ready ← reprofiled reason o.now a
      when_ready ready λ b. close (
          ready_columns o value d.capabilities b (record d {
            pending_runtime_profile = none;
            runtime_profile_update_status = "failed";
            runtime_profile_update_error = some reason;
          }))
    | lost ↦ do
      isolated ← isolate_once reason o.now a
      close (
          failed_columns reason o.now isolated (record d {
            pending_runtime_profile = none;
            runtime_profile_update_status = "failed";
            runtime_profile_update_error = some reason;
          }))
  ]
