-- ===== src/Fleet/Operation/Kinds.antt =====
-- internal/hostcommand/service.go: the reconciliation of each kind of operation with the device, from
-- the finished command and the entity of the device. `none` stands for an early return that changes
-- nothing.
use alcor_device_farm.Prelude.{
  ℕ, Bool, true, false, ◌&&◌, ◌||◌, not, String, Option, none, some, str_eq, ltb, if◌then◌else◌,
}
use alcor_device_farm.Text.{is_empty, join}
use alcor_device_farm.Failure.{Result, ok, ◌>>=◌, from_domain}
use alcor_device_farm.Domain.Command.{CommandStatus}
use alcor_device_farm.Domain.Lifecycle.{DeviceLifecycleStatus, lifecycle_same}
use alcor_device_farm.Domain.Health.{HealthStatus}
use alcor_device_farm.Domain.Reasons.{stf_readiness_stabilization}
use alcor_device_farm.Domain.Device.{Device, restore_device}
use alcor_device_farm.HostCommand.Table.{CommandRow}
use alcor_device_farm.Fleet.{DeviceColumns, become, report, report_change}
use alcor_device_farm.Fleet.Operation.Outcome.{
  OperationResult, Outside, Done, valid_result, has_status, failure_code, isolate, failed_columns,
  connected, finish_operation,
}

abbrev pub restored : DeviceColumns → Result Device
restored d = from_domain (restore_device d.id d.lifecycle_status d.health_status)

abbrev pub is_at : DeviceLifecycleStatus → Device → Bool
is_at status a = lifecycle_same a.lifecycle.status status

-- the entity after a step that is taken in one lifecycle only
abbrev pub step_from : Bool → DeviceLifecycleStatus → String → ℕ → Device → Result Device
step_from test to reason now a =
    let stepped = become to reason now a in if test then stepped else ok a

-- an isolation that leaves a device in quarantine there
abbrev pub isolate_once : String → ℕ → Device → Result Device
isolate_once reason now a = do
  unhealthy ← report_change HealthStatus.unhealthy reason now a
  step_from (not (is_at DeviceLifecycleStatus.quarantined unhealthy))
      DeviceLifecycleStatus.quarantined reason now unhealthy

-- The failure of an operation.
unfoldable pub fail_operation :
    Outside → CommandRow → String → String → DeviceColumns → Result (Option Done)
unfolding finish_operation
fail_operation o c code reason d = do
  a ← restored d
  isolated ← isolate reason o.now a
  finish_operation o c false code reason (failed_columns reason o.now isolated d)

-- the kinds of command after which a device waits for STF
abbrev pub waits_for_stf : Outside → CommandRow → OperationResult → Bool
waits_for_stf o c value =
    (str_eq c.command_type "create" || str_eq c.command_type "rebuild")
    && not (o.equal_fold value.platform "ios")

-- the columns after a start
unfoldable pub started_columns :
    Outside → CommandRow → OperationResult → Device → DeviceColumns → DeviceColumns
started_columns o c value a d =
    connected value (if is_empty value.adb_endpoint then none else some value.adb_endpoint)
      d.capabilities
      (record d {
        provider_ref = if is_empty value.provider_id then d.provider_ref else value.provider_id;
        lifecycle_status = a.lifecycle.status;
        health_status = a.health;
        health_reason = if waits_for_stf o c value then some stf_readiness_stabilization else none;
        consecutive_failures = 0;
        last_seen_at = some o.now;
        updated_at = o.now;
      })

-- reconcileManagementOperation from the restored entity on, for a command that succeeded
unfoldable pub start_operation :
    Outside → CommandRow → OperationResult → DeviceColumns → Result (Option Done)
unfolding finish_operation started_columns
start_operation o c value d = do
  let reason = join "设备管理命令执行完成：" c.command_type
  a ← restored d
  healthy ← report_change HealthStatus.healthy reason o.now a
  booting ←
      step_from
        (is_at DeviceLifecycleStatus.stopped healthy
          || is_at DeviceLifecycleStatus.provisioning healthy)
        DeviceLifecycleStatus.booting reason o.now healthy
  let ending = do
    ready ← become DeviceLifecycleStatus.ready reason o.now booting
    let waiting = report HealthStatus.unhealthy stf_readiness_stabilization o.now ready
    final ← (if waits_for_stf o c value then waiting else ok ready)
    finish_operation o c true "" reason (started_columns o c value final d)
  if is_at DeviceLifecycleStatus.booting booting then ending else ok none

-- reconcileManagementOperation from the restored entity on
unfoldable pub reconcile_start : Outside → CommandRow → DeviceColumns → Result (Option Done)
unfolding start_operation fail_operation
reconcile_start o c d =
    let reason = join (failure_code c) (join "：设备管理命令未产生健康设备（" (join c.command_type "）")) in
    let failing = fail_operation o c (failure_code c) reason d in
    elim (valid_result o c) [
      | none ↦ failing
      | some value ↦
          let starting = start_operation o c value d in
          if has_status CommandStatus.succeeded c then starting else failing
    ]

-- a Simulator that was stopped
abbrev stopped_result : Outside → OperationResult → Bool
stopped_result o value =
    o.equal_fold value.platform "ios"
    && str_eq value.state "stopped"
    && ltb 0 value.generation
    && not (is_empty value.serial)
    && not (is_empty value.appium_endpoint)
    && not (is_empty value.appium_udid)

abbrev pub stop_succeeded : Outside → CommandRow → Bool
stop_succeeded o c =
    has_status CommandStatus.succeeded c
    && elim (o.decode c.result) [ none ↦ false | some value ↦ stopped_result o value ]

-- reconcileManagementStop
unfoldable pub reconcile_stop : Outside → CommandRow → DeviceColumns → Result (Option Done)
unfolding fail_operation finish_operation
reconcile_stop o c d =
    let failing =
      fail_operation o c (failure_code c) (join (failure_code c) "：停止 Simulator 失败") d in
    let stopping = do
      a ← restored d
      unknown ← report_change HealthStatus.unknown "Simulator 已停止" o.now a
      let ending = finish_operation o c true "" "Simulator 已停止" (record d {
        health_status = unknown.health;
        health_reason = some "Simulator 已停止";
        consecutive_failures = 0;
        last_seen_at = some o.now;
        updated_at = o.now;
      })
      if is_at DeviceLifecycleStatus.stopped unknown then ending else ok none
    in if stop_succeeded o c then stopping else failing

abbrev pub delete_succeeded : Outside → CommandRow → Bool
delete_succeeded o c =
    has_status CommandStatus.succeeded c
    && elim (o.decode_deleted c.result) [ none ↦ false | some deleted ↦ deleted ]

-- reconcileManagementDelete
unfoldable pub reconcile_delete : Outside → CommandRow → DeviceColumns → Result (Option Done)
unfolding finish_operation
reconcile_delete o c d =
    let done : String = "management delete command removed provider resources" in
    let reason =
      join (failure_code c) ": management delete command did not remove provider resources" in
    let deleting = do
      a ← restored d
      deleted ← become DeviceLifecycleStatus.deleted done o.now a
      finish_operation o c true "" done (record d {
        lifecycle_status = deleted.lifecycle.status;
        health_reason = some done;
        stf_serial = none;
        adb_endpoint = none;
        appium_endpoint = none;
        updated_at = o.now;
      })
    in let failing = do
      a ← restored d
      isolated ← isolate_once reason o.now a
      finish_operation o c false (failure_code c) reason (failed_columns reason o.now isolated d)
      in if delete_succeeded o c then deleting else failing
