-- ===== src/Domain/Lifecycle.antt =====
-- internal/domain/device.go: the lifecycle of a device.
use alcor_device_farm.Prelude.{
  ◌≡◌, ◌↔◌, Bool, true, false, String, Option, none, List, [], ◌∷◌, arith, str_eq, eq_iff,
  if◌then◌else◌,
}
use alcor_device_farm.Domain.Machine.{Status, allowed, has_key}

pub data DeviceLifecycleStatus : Type 0 where
  provisioning booting ready reserved busy recycling stopped quarantined deleted :
      DeviceLifecycleStatus
  other : String → DeviceLifecycleStatus

-- The string of a status.
abbrev pub lifecycle_name : DeviceLifecycleStatus → String
lifecycle_name provisioning = "provisioning"
lifecycle_name booting = "booting"
lifecycle_name ready = "ready"
lifecycle_name reserved = "reserved"
lifecycle_name busy = "busy"
lifecycle_name recycling = "recycling"
lifecycle_name stopped = "stopped"
lifecycle_name quarantined = "quarantined"
lifecycle_name deleted = "deleted"
lifecycle_name (other s) = s

-- The status of a string.
abbrev pub lifecycle_status_of : String → DeviceLifecycleStatus
lifecycle_status_of s =
    if str_eq s "provisioning"
    then provisioning
    else if str_eq s "booting"
    then booting
    else if str_eq s "ready"
    then ready
    else if str_eq s "reserved"
    then reserved
    else if str_eq s "busy"
    then busy
    else if str_eq s "recycling"
    then recycling
    else if str_eq s "stopped"
    then stopped
    else if str_eq s "quarantined"
    then quarantined
    else if str_eq s "deleted"
    then deleted
    else other s

abbrev pub lifecycle_same : DeviceLifecycleStatus → DeviceLifecycleStatus → Bool
lifecycle_same provisioning provisioning = true
lifecycle_same booting booting = true
lifecycle_same ready ready = true
lifecycle_same reserved reserved = true
lifecycle_same busy busy = true
lifecycle_same recycling recycling = true
lifecycle_same stopped stopped = true
lifecycle_same quarantined quarantined = true
lifecycle_same deleted deleted = true
lifecycle_same (other s) (other t) = str_eq s t
lifecycle_same _ _ = false

pub lifecycle_same_iff : (a b : DeviceLifecycleStatus) → (lifecycle_same a b ≡ true) ↔ (a ≡ b)
lifecycle_same_iff (other s) (other t) = ground (arith, eq_iff s t)
lifecycle_same_iff _ _ = ground arith

instance abbrev pub lifecycle_status : Status DeviceLifecycleStatus
lifecycle_status = record {
  name = lifecycle_name;
  same = lifecycle_same;
  same_iff = lifecycle_same_iff;
}

abbrev pub device_transitions : DeviceLifecycleStatus → Option (List DeviceLifecycleStatus)
device_transitions provisioning = allowed (booting ∷ quarantined ∷ deleted ∷ [])
device_transitions booting = allowed (ready ∷ stopped ∷ quarantined ∷ [])
device_transitions ready =
    allowed (provisioning ∷ reserved ∷ recycling ∷ stopped ∷ quarantined ∷ deleted ∷ [])
device_transitions reserved = allowed (busy ∷ ready ∷ recycling ∷ quarantined ∷ [])
device_transitions busy = allowed (ready ∷ recycling ∷ quarantined ∷ [])
device_transitions recycling = allowed (ready ∷ stopped ∷ quarantined ∷ [])
device_transitions stopped = allowed (provisioning ∷ booting ∷ quarantined ∷ deleted ∷ [])
device_transitions quarantined = allowed (provisioning ∷ deleted ∷ [])
device_transitions deleted = allowed ([])
device_transitions (other s) = none

unfoldable pub valid_lifecycle : DeviceLifecycleStatus → Bool
valid_lifecycle status = has_key device_transitions status
