-- ===== src/Fleet/Operation.antt =====
-- internal/hostcommand/service.go, reconcileManagementOperation: when the command of an operation on a
-- device has ended, the device follows. The reconciliation of the image catalog, which comes first in
-- the source (internal/imagecatalog), is not part of it.
pub mod Outcome
pub mod Kinds
pub mod Replacements
pub mod Laws
pub mod Isolation
use alcor_device_farm.Prelude.{
  ℕ, Bool, true, false, ◌&&◌, ◌||◌, not, String, Option, none, some, List, str_eq, leb,
  if◌then◌else◌,
}
use alcor_device_farm.Text.{is_empty, size}
use alcor_device_farm.Failure.{Result, ok, err, invalid_argument}
use alcor_device_farm.Json.{Json, Fields}
use alcor_device_farm.Domain.Command.{CommandStatus}
use alcor_device_farm.Domain.Lifecycle.{DeviceLifecycleStatus, lifecycle_same, lifecycle_status_of}
use alcor_device_farm.Store.Rows.{find_row}
use alcor_device_farm.HostCommand.Table.{CommandRow}
use alcor_device_farm.Fleet.{DeviceColumns}
use alcor_device_farm.Fleet.Operation.Outcome.{Outside, Done, has_status, payload_string}
use alcor_device_farm.Fleet.Operation.Kinds.{reconcile_start, reconcile_stop, reconcile_delete}
use alcor_device_farm.Fleet.Operation.Replacements.{reconcile_reimage, reconcile_profile}

-- what the payload of a command says of its operation
pub record Request : Type 0 where
  pub source : String
  pub device_id : String
  pub provider_ref : String
  pub state : String
  pub kind : String

abbrev pub request_of : Fields → Request
request_of payload = record {
  source = payload_string payload "operation_source";
  device_id = payload_string payload "device_id";
  provider_ref = payload_string payload "provider_ref";
  state = payload_string payload "operation_state";
  kind = payload_string payload "operation_kind";
}

abbrev pub is_target : CommandRow → Request → DeviceColumns → Bool
is_target c q d =
    str_eq d.id q.device_id && str_eq d.host_id c.host_id && str_eq d.provider_ref q.provider_ref

abbrev is_in : DeviceLifecycleStatus → DeviceColumns → Bool
is_in status d = lifecycle_same d.lifecycle_status status

-- Is the device still where the operation found it? A heartbeat may have overtaken a rebuild or an
-- update of the profile.
unfoldable pub is_expected : CommandRow → Request → DeviceColumns → Bool
is_expected c q d =
    lifecycle_same d.lifecycle_status (lifecycle_status_of q.state)
    || (str_eq c.command_type "rebuild"
        && str_eq q.state "provisioning"
        && is_in DeviceLifecycleStatus.booting d)
    || (str_eq q.kind "runtime_profile_update"
        && str_eq q.state "provisioning"
        && (is_in DeviceLifecycleStatus.booting d
            || is_in DeviceLifecycleStatus.ready d
            || is_in DeviceLifecycleStatus.quarantined d))

-- the reconciliation of the kind of the operation
unfoldable pub reconcile_kind :
    Outside → CommandRow → Fields → Request → DeviceColumns → Result (Option Done)
unfolding reconcile_start reconcile_stop reconcile_delete reconcile_reimage reconcile_profile
reconcile_kind o c payload q d =
    if str_eq c.command_type "delete"
    then reconcile_delete o c d
    else if str_eq q.kind "reimage"
    then reconcile_reimage o c payload d
    else if str_eq q.kind "runtime_profile_update"
    then reconcile_profile o c payload d
    else if str_eq c.command_type "stop"
    then reconcile_stop o c d
    else reconcile_start o c d

unfoldable pub reconcile_request :
    Outside → List DeviceColumns → CommandRow → Fields → Request → Result (Option Done)
unfolding reconcile_kind is_expected
reconcile_request o devices c payload q =
    if not (str_eq q.source "management" || str_eq q.source "self_healing")
    then ok none
    else if not (leb 16 (size q.device_id)) || is_empty q.provider_ref || is_empty q.state
    then err invalid_argument
    else elim (find_row (is_target c q) devices) [
      | none ↦ ok none
      | some d ↦ if is_expected c q d then reconcile_kind o c payload q d else ok none
    ]

-- reconcileManagementOperation
unfoldable pub reconcile_operation :
    Outside → List DeviceColumns → CommandRow → Result (Option Done)
unfolding reconcile_request
reconcile_operation o devices c =
    if has_status CommandStatus.pending c || has_status CommandStatus.leased c
    then ok none
    else elim c.payload [
      | Json.object payload ↦ reconcile_request o devices c payload (request_of payload)
      | Json.null ↦ reconcile_request o devices c Fields.end (request_of Fields.end)
      | _ ↦ err invalid_argument
    ]
