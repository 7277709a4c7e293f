-- ===== src/Fleet/Recovery.antt =====
-- internal/hostcommand/service.go, recoverFromHostOutage and applyDiscoveredLifecycle: how a device
-- follows what its host observes.
pub mod Laws
use alcor_device_farm.Prelude.{ℕ, Bool, ◌||◌, String, str_eq, if◌then◌else◌}
use alcor_device_farm.Failure.{Result, ok, ◌>>=◌}
use alcor_device_farm.Domain.Lifecycle.{DeviceLifecycleStatus, lifecycle_same}
use alcor_device_farm.Domain.Health.{HealthStatus}
use alcor_device_farm.Domain.Device.{Device}
use alcor_device_farm.Fleet.{become, report_change}

abbrev recovered : String
recovered = "host and provider heartbeat recovered"

-- recoverFromHostOutage
unfoldable pub recover_from_host_outage : Device → String → ℕ → Result Device
recover_from_host_outage device assignment now = do
  healthy ← report_change HealthStatus.healthy recovered now device
  provisioning ← become DeviceLifecycleStatus.provisioning recovered now healthy
  booting ← become DeviceLifecycleStatus.booting recovered now provisioning
  ready ← become DeviceLifecycleStatus.ready recovered now booting
  let reserving =
      become DeviceLifecycleStatus.reserved "existing reservation restored after host recovery" now
        ready
  reserved ←
      (if str_eq assignment "reserved" || str_eq assignment "busy" then reserving else ok ready)
  let restoring =
      become DeviceLifecycleStatus.busy "active session restored after host recovery" now reserved
  if str_eq assignment "busy" then restoring else ok reserved

abbrev is_in : DeviceLifecycleStatus → Device → Bool
is_in status d = lifecycle_same d.lifecycle.status status

-- applyDiscoveredLifecycle
unfoldable pub apply_discovered_lifecycle : Device → DeviceLifecycleStatus → ℕ → Result Device
apply_discovered_lifecycle device incoming now =
    if is_in incoming device then ok device else elim incoming [
      | DeviceLifecycleStatus.booting ↦
          if is_in DeviceLifecycleStatus.provisioning device
            || is_in DeviceLifecycleStatus.stopped device
          then become DeviceLifecycleStatus.booting "agent discovered booting device" now device
          else ok device
      | DeviceLifecycleStatus.ready ↦ do
        started ←
            (if is_in DeviceLifecycleStatus.provisioning device
                || is_in DeviceLifecycleStatus.stopped device
              then become DeviceLifecycleStatus.booting "agent discovered running device" now device
              else ok device)
        let passed = become DeviceLifecycleStatus.ready "agent health checks passed" now started
        if is_in DeviceLifecycleStatus.booting started then passed else ok started
      | DeviceLifecycleStatus.stopped ↦
          if is_in DeviceLifecycleStatus.booting device || is_in DeviceLifecycleStatus.ready device
          then become DeviceLifecycleStatus.stopped "agent discovered stopped device" now device
          else ok device
      | _ ↦ ok device
    ]
