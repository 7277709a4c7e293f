-- ===== src/Repository/Queries.antt =====
-- internal/repository/reservation.go: which reservation is served next, and with which device.
use alcor_device_farm.Prelude.{
  ℕ, ◌+◌, ◌*◌, Bool, true, false, ◌&&◌, ◌||◌, not, String, Option, none, some, List, [], ◌∷◌,
  str_eq, ltb, leb, ◌==◌, any,
}
use Prim.Native.String.{compare}
use text.Mathlib.Text.{is_lt}
use alcor_device_farm.Domain.Lifecycle.{DeviceLifecycleStatus, lifecycle_same}
use alcor_device_farm.Domain.Health.{HealthStatus, health_same}
use alcor_device_farm.Domain.Reservation.{ReservationStatus, reservation_same}
use alcor_device_farm.Domain.Host.{HostStatus, host_same}
use alcor_device_farm.Domain.Pool.{PoolStatus, pool_same}
use alcor_device_farm.Store.{
  Store, DeviceRow, ReservationRow, HostRow, PoolRow, MemberRow, RequestedCapabilities, second,
}
use alcor_device_farm.Store.Rows.{find_row, select, least}

abbrev pub is_pending : ReservationRow → Bool
is_pending r = reservation_same r.status ReservationStatus.pending

abbrev pub is_active : ReservationRow → Bool
is_active r = reservation_same r.status ReservationStatus.active

-- device_id = $1
abbrev pub names_device : String → Option String → Bool
names_device id none = false
names_device id (some d) = str_eq d id

-- device_id IS NULL
abbrev pub is_null {ℓ} : {A : Type ℓ} → Option A → Bool
is_null none = true
is_null (some a) = false

-- status = 'pending' AND device_id IS NULL
abbrev pub is_waiting : ReservationRow → Bool
is_waiting r = is_pending r && is_null r.device_id

-- lifecycle_status = 'ready'
abbrev pub is_ready : DeviceRow → Bool
is_ready d = lifecycle_same d.lifecycle_status DeviceLifecycleStatus.ready

-- lifecycle_status = 'ready' AND health_status = 'healthy'
abbrev pub is_free : DeviceRow → Bool
is_free d = is_ready d && health_same d.health_status HealthStatus.healthy

pub platform_fits : RequestedCapabilities → PoolRow → Bool
platform_fits c p = elim c.platform_name [ none ↦ true | some name ↦ str_eq name p.platform ]

pub target_fits : RequestedCapabilities → DeviceRow → Bool
target_fits c d = elim c.target_device [ none ↦ true | some id ↦ str_eq d.id id ]

-- capabilities @> wanted, of flat objects
pub contains : List (String × String) → List (String × String) → Bool
contains capabilities [] = true
contains capabilities ((k, v) ∷ rest) =
    any (λ (p : String × String). str_eq p.0 k && str_eq p.1 v) capabilities
    && contains capabilities rest

pub sdk_fits : RequestedCapabilities → DeviceRow → Bool
sdk_fits c d = c.min_sdk_level == 0 || leb c.min_sdk_level d.api_level

-- the device is in the pool by this membership, and the pool serves the request
pub joins : RequestedCapabilities → DeviceRow → MemberRow → PoolRow → Bool
unfolding platform_fits
joins c d m p =
    str_eq p.id m.pool_id
    && pool_same p.status PoolStatus.active
    && str_eq p.platform d.platform
    && platform_fits c p

pub host_serves : DeviceRow → HostRow → Bool
host_serves d h = str_eq h.id d.host_id && host_same h.status HostStatus.online && not h.draining

-- The WHERE clause that LockNextAllocatablePending and LockMatchingDevice share.
unfoldable pub is_allocatable : Store → RequestedCapabilities → DeviceRow → Bool
unfolding joins host_serves target_fits contains sdk_fits
is_allocatable s c d =
    is_free d
    && any (λ m. str_eq m.device_id d.id && m.enabled && any (joins c d m) s.pools) s.members
    && any (host_serves d) s.hosts
    && target_fits c d
    && contains d.capabilities c.schedulable
    && sdk_fits c d

-- ORDER BY created_at, id
abbrev pub precedes : ℕ → String → ℕ → String → Bool
precedes t i u j = ltb t u || (t == u && is_lt (compare i j))

-- A claim that was compensated is tried again after five seconds.
pub retry_due : ℕ → ReservationRow → Bool
retry_due clock r = is_null r.failure_code || leb (r.updated_at + 5 * second) clock

-- Is there a device for this reservation, and may it be tried now?
unfoldable pub is_candidate : Store → ℕ → ReservationRow → Bool
unfolding retry_due
is_candidate s clock r =
    is_waiting r && retry_due clock r && any (is_allocatable s r.requested_capabilities) s.devices

-- LockNextAllocatablePending at the clock's time; `locked` are the rows that other transactions hold
-- (SKIP LOCKED).
unfoldable pub lock_next_allocatable_pending : Store → ℕ → (String → Bool) → Option ReservationRow
lock_next_allocatable_pending s clock locked =
    least (λ a b. precedes a.created_at a.id b.created_at b.id)
      (select (λ r. is_candidate s clock r && not (locked r.id)) s.reservations)

-- LockMatchingDevice
unfoldable pub lock_matching_device :
    Store → RequestedCapabilities → (String → Bool) → Option DeviceRow
lock_matching_device s c locked =
    least (λ a b. precedes a.created_at a.id b.created_at b.id)
      (select (λ d. is_allocatable s c d && not (locked d.id)) s.devices)

-- HasPending
unfoldable pub has_pending : Store → Bool
has_pending s = any is_pending s.reservations

-- Get and LockByID
unfoldable pub get_reservation : Store → String → Option ReservationRow
get_reservation s id = find_row (λ r. str_eq r.id id) s.reservations

-- GetDevice and LockDevice
unfoldable pub get_device : Store → String → Option DeviceRow
get_device s id = find_row (λ d. str_eq d.id id) s.devices

-- FindNextExpired and LockNextExpired
is_expired : ℕ → ℕ → ReservationRow → Bool
is_expired clock grace r =
    is_active r && elim r.expires_at [ none ↦ false | some t ↦ leb (t + grace * second) clock ]

abbrev expiry : ReservationRow → ℕ
expiry r = elim r.expires_at [ none ↦ 0 | some t ↦ t ]

unfoldable pub find_next_expired : Store → ℕ → ℕ → Option ReservationRow
unfolding is_expired
find_next_expired s clock grace =
    least (λ a b. precedes (expiry a) a.id (expiry b) b.id)
      (select (is_expired clock grace) s.reservations)

-- FindNextStalePending
is_stale : ℕ → ℕ → ℕ → ReservationRow → Bool
is_stale clock timeout grace r =
    is_waiting r && leb (r.created_at + timeout * second + grace * second) clock

unfoldable pub find_next_stale_pending : Store → ℕ → ℕ → ℕ → Option ReservationRow
unfolding is_stale
find_next_stale_pending s clock timeout grace =
    least (λ a b. precedes a.created_at a.id b.created_at b.id)
      (select (is_stale clock timeout grace) s.reservations)

-- FindNextOrphanedClaim
is_orphaned : ℕ → ℕ → ReservationRow → Bool
is_orphaned clock grace r =
    is_pending r && not (is_null r.device_id) && leb (r.updated_at + grace * second) clock

unfoldable pub find_next_orphaned_claim : Store → ℕ → ℕ → Option ReservationRow
unfolding is_orphaned
find_next_orphaned_claim s clock grace =
    least (λ a b. precedes a.updated_at a.id b.updated_at b.id)
      (select (is_orphaned clock grace) s.reservations)
