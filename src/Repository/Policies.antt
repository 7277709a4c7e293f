-- ===== src/Repository/Policies.antt =====
-- internal/repository/reservation.go: the pool whose limits a device is held to.
use alcor_device_farm.Prelude.{
  ℕ, Bool, ◌&&◌, ◌||◌, not, String, Option, none, some, str_eq, ltb, any, if◌then◌else◌,
}
use Prim.Native.String.{◌++◌ as str_append}
use mathlib.Core.Option
use alcor_device_farm.Domain.Pool.{PoolStatus, pool_same}
use alcor_device_farm.Store.{Store, PoolRow, HostRow}
use alcor_device_farm.Store.Rows.{find_row, select, least, count}
use alcor_device_farm.Repository.Queries.{is_active, names_device}

pub record PoolPolicy : Type 0 where
  pub status : PoolStatus
  pub platform : String
  pub max_lease_seconds : ℕ
  pub max_concurrency : ℕ
  pub active_reservations : ℕ
  pub fresh_vm_per_run : Bool

abbrev policy_of : PoolRow → ℕ → PoolPolicy
policy_of p active = record {
  status = p.status;
  platform = p.platform;
  max_lease_seconds = p.max_lease_seconds;
  max_concurrency = p.max_concurrency;
  active_reservations = active;
  fresh_vm_per_run = p.fresh_vm_per_run;
}

abbrev is_active_pool : PoolRow → Bool
is_active_pool p = pool_same p.status PoolStatus.active

-- GetPoolPolicy
unfoldable pub get_pool_policy : Store → String → Option PoolPolicy
get_pool_policy s id =
    Option.map (λ p. policy_of p (count (λ r. str_eq r.pool_id id && is_active r) s.reservations))
      (find_row (λ p. str_eq p.id id) s.pools)

-- the name of the pool that goes with a host
pool_name : PoolRow → HostRow → String
pool_name p h =
    if str_eq p.platform "ios"
    then str_append "iOS - " h.address
    else str_append "android-" h.address

abbrev with_default {ℓ} : {A : Type ℓ} → Option A → Option A → Option A
with_default none o = o
with_default (some a) o = some a

-- The pool of the host by its name, or else the pool of the device by its membership; only active
-- pools and enabled memberships count.
allocation_pool : Store → String → String → Option String
unfolding pool_name
allocation_pool s host device =
    let named =
      least (λ a b. ltb a.created_at b.created_at)
        (select
          (λ p.
            is_active_pool p
            && any (λ h. str_eq h.id host && str_eq p.name (pool_name p h)) s.hosts)
          s.pools) in
    let joined =
      least (λ a b. ltb a.created_at b.created_at)
        (select
          (λ m.
            str_eq m.device_id device
            && m.enabled
            && any (λ p. str_eq p.id m.pool_id && is_active_pool p) s.pools)
          s.members) in
    with_default (Option.map (λ p. p.id) named) (Option.map (λ m. m.pool_id) joined)

-- the active reservations of the devices of a host
unfoldable pub active_on_host : Store → String → ℕ
active_on_host s host =
    count
      (λ r.
        is_active r && any (λ d. names_device d.id r.device_id && str_eq d.host_id host) s.devices)
      s.reservations

-- LockPoolPolicyForHost
unfoldable pub lock_pool_policy_for_host : Store → String → String → Option PoolPolicy
unfolding allocation_pool active_on_host
lock_pool_policy_for_host s host device = elim (allocation_pool s host device) [
  | none ↦ none
  | some id ↦
      Option.map (λ p. policy_of p (active_on_host s host))
        (least (λ a b. ltb a.created_at b.created_at)
          (select (λ p. is_active_pool p && str_eq p.id id) s.pools))
]

-- an active pool before others, then the older one
abbrev pool_precedes : Bool → ℕ → Bool → ℕ → Bool
pool_precedes a t b u = (a && not b) || (not (not a && b) && ltb t u)

-- On release a paused pool or a disabled membership still counts.
release_pool : Store → String → String → Option String
unfolding pool_name
release_pool s host device =
    let named =
      least (λ a b. pool_precedes (is_active_pool a) a.created_at (is_active_pool b) b.created_at)
        (select (λ p. any (λ h. str_eq h.id host && str_eq p.name (pool_name p h)) s.hosts)
          s.pools) in
    let joined =
      least (λ a b. pool_precedes a.enabled a.created_at b.enabled b.created_at)
        (select (λ m. str_eq m.device_id device && any (λ p. str_eq p.id m.pool_id) s.pools)
          s.members) in
    with_default (Option.map (λ p. p.id) named) (Option.map (λ m. m.pool_id) joined)

-- LoadPoolPolicyForRelease; the number of active reservations is not read, and is 0.
unfoldable pub load_pool_policy_for_release : Store → String → String → Option PoolPolicy
unfolding release_pool
load_pool_policy_for_release s host device = elim (release_pool s host device) [
  | none ↦ none
  | some id ↦ Option.map (λ p. policy_of p 0) (find_row (λ p. str_eq p.id id) s.pools)
]
