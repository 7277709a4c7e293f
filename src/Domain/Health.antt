-- ===== src/Domain/Health.antt =====
-- internal/domain/device.go: the health of a device.
use alcor_device_farm.Prelude.{
  ◌≡◌, ◌↔◌, Bool, true, false, String, Option, none, List, [], ◌∷◌, arith, str_eq, eq_iff,
  if◌then◌else◌,
}
use alcor_device_farm.Domain.Machine.{Status, allowed, has_key}

pub data HealthStatus : Type 0 where
  unknown healthy degraded unhealthy : HealthStatus
  other : String → HealthStatus

-- The string of a status.
abbrev pub health_name : HealthStatus → String
health_name unknown = "unknown"
health_name healthy = "healthy"
health_name degraded = "degraded"
health_name unhealthy = "unhealthy"
health_name (other s) = s

-- The health of a string.
abbrev pub health_status_of : String → HealthStatus
health_status_of s =
    if str_eq s "unknown"
    then unknown
    else if str_eq s "healthy"
    then healthy
    else if str_eq s "degraded"
    then degraded
    else if str_eq s "unhealthy"
    then unhealthy
    else other s

abbrev pub health_same : HealthStatus → HealthStatus → Bool
health_same unknown unknown = true
health_same healthy healthy = true
health_same degraded degraded = true
health_same unhealthy unhealthy = true
health_same (other s) (other t) = str_eq s t
health_same _ _ = false

pub health_same_iff : (a b : HealthStatus) → (health_same a b ≡ true) ↔ (a ≡ b)
health_same_iff (other s) (other t) = ground (arith, eq_iff s t)
health_same_iff _ _ = ground arith

instance abbrev pub health_status : Status HealthStatus
health_status = record { name = health_name; same = health_same; same_iff = health_same_iff }

abbrev pub health_transitions : HealthStatus → Option (List HealthStatus)
health_transitions unknown = allowed (healthy ∷ degraded ∷ unhealthy ∷ [])
health_transitions healthy = allowed (unknown ∷ degraded ∷ unhealthy ∷ [])
health_transitions degraded = allowed (unknown ∷ healthy ∷ unhealthy ∷ [])
health_transitions unhealthy = allowed (unknown ∷ healthy ∷ degraded ∷ [])
health_transitions (other s) = none

unfoldable pub valid_health : HealthStatus → Bool
valid_health status = has_key health_transitions status
