-- ===== src/Domain/Reasons.antt =====
-- internal/domain/health_reason.go: which reasons of a bad health the system itself may lift.
use alcor_device_farm.Prelude.{◌≡◌, refl, Bool, true, ◌||◌, String, str_eq}
use alcor_device_farm.Text.{trim_space, has_prefix}

abbrev pub stf_readiness_stabilization : String
stf_readiness_stabilization = "STF readiness stabilization is in progress"

abbrev pub agent_reported_unhealthy : String
agent_reported_unhealthy =
    "agent heartbeat reported an assigned or schedulable device is not healthy"

-- device.go, HostUnavailableReason
abbrev pub host_unavailable : String
host_unavailable = "设备宿主机离线或暂不可用"

-- IsSTFFailureReason
unfoldable pub is_stf_failure_reason : String → Bool
is_stf_failure_reason reason =
    str_eq (trim_space reason) "device is not visible through STF"
    || has_prefix (trim_space reason) "STF "

-- IsSystemRecoverableHealthReason
unfoldable pub is_system_recoverable : String → Bool
unfolding is_stf_failure_reason
is_system_recoverable reason =
    str_eq (trim_space reason) host_unavailable
    || str_eq (trim_space reason) agent_reported_unhealthy
    || is_stf_failure_reason (trim_space reason)
    || has_prefix (trim_space reason) "IOS_PROVIDER_DEVICE_MISSING:"

missing : is_system_recoverable "IOS_PROVIDER_DEVICE_MISSING: inventory drift" ≡ true
unfolding is_system_recoverable has_prefix trim_space
missing = refl
