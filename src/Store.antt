-- ===== src/Store.antt =====
-- The tables of migrations/ that allocation works on, with the columns that it reads or writes.
-- A time is a number of microseconds, and an id is a text. A column of JSON is the record of what
-- is read from it.
pub mod Rows
pub mod Order
pub mod Lookup
use alcor_device_farm.Prelude.{
  ℕ, Bool, true, false, String, Option, none, some, List, [], ◌∷◌, str_eq, ◌&&◌,
}
use alcor_device_farm.Domain.Lifecycle.{DeviceLifecycleStatus}
use alcor_device_farm.Domain.Health.{HealthStatus}
use alcor_device_farm.Domain.Reservation.{ReservationStatus}
use alcor_device_farm.Domain.Session.{SessionStatus}
use alcor_device_farm.Domain.Host.{HostStatus}
use alcor_device_farm.Domain.Pool.{PoolStatus}

-- one second
abbrev pub second : ℕ
second = 1000000

-- What the queries read of `requested_capabilities`: the target device, the platform in lower case,
-- the lower bound `androidMinSdkLevel` (0 for none) and the keys that
-- `device_schedulable_capabilities` keeps, with their values as texts.
pub record RequestedCapabilities : Type 0 where
  pub target_device : Option String
  pub platform_name : Option String
  pub min_sdk_level : ℕ
  pub schedulable : List (String × String)

pub record DeviceRow : Type 0 where
  pub id : String
  pub host_id : String
  pub platform : String
  pub device_kind : String
  pub lifecycle_mode : String
  pub lifecycle_status : DeviceLifecycleStatus
  pub health_status : HealthStatus
  pub serial : String
  pub stf_serial : String
  pub api_level : ℕ
  pub capabilities : List (String × String)
  pub created_at : ℕ
  pub updated_at : ℕ

pub record ReservationRow : Type 0 where
  pub id : String
  pub client_id : String
  pub pool_id : String
  pub device_id : Option String
  pub owner_type : String
  pub owner_id : String
  pub requested_capabilities : RequestedCapabilities
  pub lease_seconds : ℕ
  pub status : ReservationStatus
  pub idempotency_key : String
  pub starts_at : Option ℕ
  pub expires_at : Option ℕ
  pub released_at : Option ℕ
  pub failure_code : Option String
  pub created_at : ℕ
  pub updated_at : ℕ

pub record SessionRow : Type 0 where
  pub id : String
  pub reservation_id : String
  pub device_id : String
  pub status : SessionStatus
  pub started_at : Option ℕ
  pub ended_at : Option ℕ
  pub created_at : ℕ
  pub updated_at : ℕ

pub record HostRow : Type 0 where
  pub id : String
  pub address : String
  pub status : HostStatus
  pub draining : Bool

pub record PoolRow : Type 0 where
  pub id : String
  pub name : String
  pub platform : String
  pub status : PoolStatus
  pub max_lease_seconds : ℕ
  pub max_concurrency : ℕ
  pub fresh_vm_per_run : Bool
  pub created_at : ℕ

-- device_pool_devices: a device belongs to a pool.
pub record MemberRow : Type 0 where
  pub pool_id : String
  pub device_id : String
  pub enabled : Bool
  pub created_at : ℕ

-- device_idempotency_records
pub record OperationRow : Type 0 where
  pub client_id : String
  pub scope : String
  pub idempotency_key : String
  pub request_hash : String
  pub resource_type : String
  pub resource_id : String

pub record AuditRow : Type 0 where
  pub id : String
  pub actor_type : String
  pub actor_id : String
  pub action : String
  pub resource_id : String
  pub request_id : String
  pub reason : String

pub record Store : Type 0 where
  pub devices : List DeviceRow
  pub reservations : List ReservationRow
  pub sessions : List SessionRow
  pub hosts : List HostRow
  pub pools : List PoolRow
  pub members : List MemberRow
  pub operations : List OperationRow
  pub audits : List AuditRow
