-- ===== src/Fleet/Discovery/Recovered.antt =====
-- A device that was taken out because its host was away comes back by itself
-- (internal/hostcommand/service.go, updateDiscoveredDevice).
use alcor_device_farm.Prelude.{
  ℕ, ◌≡◌, ◌≢◌, refl, ap, true, false, ◌&&◌, ◌||◌, not, String, none, some, arith,
}
use alcor_device_farm.Text.{is_identifier}
use alcor_device_farm.Failure.{ok, ◌>>=◌, guard, Yields, Yields-ok, >>=-Yields}
use alcor_device_farm.Domain.Lifecycle.{DeviceLifecycleStatus, lifecycle_same, valid_lifecycle}
use alcor_device_farm.Domain.Health.{HealthStatus, health_same, health_status_of, valid_health}
use alcor_device_farm.Domain.Reasons.{is_system_recoverable, is_stf_failure_reason}
use alcor_device_farm.Domain.Device.{Device}
use alcor_device_farm.Fleet.{DeviceColumns}
use alcor_device_farm.Fleet.Entity.{IsAt, restore-IsAt}
use alcor_device_farm.Fleet.Recovery.{apply_discovered_lifecycle}
use alcor_device_farm.Fleet.Recovery.Laws.{assigned_lifecycle, recover-IsAt}
use alcor_device_farm.Fleet.Discovery.{
  DiscoveredDevice, Situation, Connection, is_open, is_used, recovers, preserves_stf, observed,
  differs, update_discovered_device, discovered_columns, discovered_connection,
}

-- The device is in quarantine for a reason that the system may lift and that is not about STF, and its
-- host reports that it is ready and healthy, with no operation in flight.
pub record CameBack (d : DeviceColumns) (discovered : DiscoveredDevice) (now_in : Situation)
    : Type 0 where
  pub quarantined : d.lifecycle_status ≡ DeviceLifecycleStatus.quarantined
  pub reason : String
  pub reasoned : d.health_reason ≡ some reason
  pub recoverable : is_system_recoverable reason ≡ true
  pub not_stf : is_stf_failure_reason reason ≡ false
  pub idle : now_in.operation_in_flight ≡ false
  pub ready : discovered.lifecycle_status ≡ "ready"
  pub healthy : discovered.health_status ≡ "healthy"

module _ (d : DeviceColumns) (discovered : DiscoveredDevice) (now_in : Situation)
    (back : CameBack d discovered now_in) where
  back_tests :
      (recovers d discovered now_in ≡ true)
      × (is_open d discovered now_in ≡ true)
      × (preserves_stf d discovered now_in ≡ false)
  unfolding recovers is_open preserves_stf
  back_tests =
      rw (back.quarantined, back.reasoned)
        (rw (back.idle, back.healthy) (rw (back.recoverable, back.not_stf) (refl, refl, refl)))

-- A ready, reserved or busy device that is reported as ready stays where it is.
apply-stays :
    (s : DeviceLifecycleStatus) (now : ℕ) (a : Device)
    → (lifecycle_same s DeviceLifecycleStatus.ready
        || lifecycle_same s DeviceLifecycleStatus.reserved
        || lifecycle_same s DeviceLifecycleStatus.busy)
      ≡ true
    → a.lifecycle.status ≡ s
    → apply_discovered_lifecycle a DeviceLifecycleStatus.ready now ≡ ok a
unfolding apply_discovered_lifecycle ◌>>=◌
apply-stays s now a h e = ground (arith, h, e)

assigned_stays :
    (assignment : String)
    → (lifecycle_same (assigned_lifecycle assignment) DeviceLifecycleStatus.ready
        || lifecycle_same (assigned_lifecycle assignment) DeviceLifecycleStatus.reserved
        || lifecycle_same (assigned_lifecycle assignment) DeviceLifecycleStatus.busy)
      ≡ true
assigned_stays assignment = ground arith

observed-back :
    (d : DeviceColumns) (discovered : DiscoveredDevice) (now_in : Situation) (now : ℕ)
    → CameBack d discovered now_in
    → is_identifier d.id ≡ true
    → valid_health d.health_status ≡ true
    → now ≢ 0
    → Yields
        (IsAt (assigned_lifecycle now_in.assignment_target) HealthStatus.healthy)
        (observed d discovered now_in now)
unfolding observed valid_lifecycle
observed-back d discovered now_in now back i v n =
    let (recovering, opened, not_preserved) = back_tests d discovered now_in back in
    >>=-Yields {P = IsAt DeviceLifecycleStatus.quarantined d.health_status}
      (rw (back.quarantined)
        (restore-IsAt d.id DeviceLifecycleStatus.quarantined d.health_status i refl v))
      λ r at_r.
        >>=-Yields {P = IsAt (assigned_lifecycle now_in.assignment_target) HealthStatus.healthy}
          (rw recovering (recover-IsAt now_in.assignment_target d.health_status now r v n at_r))
          λ a at_a.
            >>=-Yields {P = IsAt (assigned_lifecycle now_in.assignment_target) HealthStatus.healthy}
              (let same : health_same a.health (health_status_of discovered.health_status) ≡ true =
                  rw (back.healthy) (ap (λ h. health_same h HealthStatus.healthy) at_a.health) in
                let kept : (is_open d discovered now_in
                      && not (preserves_stf d discovered now_in)
                      && not (health_same a.health (health_status_of discovered.health_status)))
                    ≡ false =
                  ground (arith, same) in
                rw kept (Yields-ok a at_a))
              λ b at_b.
                let followed : (is_open d discovered now_in && not (is_used d)) ≡ true =
                  rw (back.quarantined) (ground (arith, opened)) in
                rw followed (
                  rw (back.ready) (
                    rw
                      (apply-stays (assigned_lifecycle now_in.assignment_target) now b
                        (assigned_stays now_in.assignment_target) at_b.lifecycle)
                      (Yields-ok b at_b)))

-- A device that came back is put by the heartbeat where its reservation wants it: it is busy if the
-- reservation is active, reserved if it is pending and ready if there is none. It is healthy, without a
-- reason and without failures. The heartbeat reports the platform, kind and provider of the
-- device or none, and a well-formed connection; the id and the health of the row are valid.
pub update-recovered :
    (lower redact_text : String → String) (d : DeviceColumns) (discovered : DiscoveredDevice)
    (now_in : Situation) (now : ℕ) (connection : Connection)
    → CameBack d discovered now_in
    → is_identifier d.id ≡ true
    → valid_health d.health_status ≡ true
    → now ≢ 0
    → differs discovered.platform d.platform ≡ false
    → differs discovered.device_kind d.device_kind ≡ false
    → differs discovered.provider_type d.provider_type ≡ false
    → discovered_connection discovered.connection ≡ ok connection
    → Yields
        (λ e.
          (e.lifecycle_status ≡ assigned_lifecycle now_in.assignment_target)
          × (e.health_status ≡ HealthStatus.healthy)
          × (e.health_reason ≡ none)
          × (e.consecutive_failures ≡ 0))
        (update_discovered_device lower redact_text d discovered now_in now)
unfolding update_discovered_device discovered_columns guard ◌>>=◌
update-recovered lower redact_text d discovered now_in now connection back i v n p k t c =
    let (recovering, opened, not_preserved) = back_tests d discovered now_in back in
    let seen = observed-back d discovered now_in now back i v n in
    let is_healthy = ap (λ h. health_same h HealthStatus.healthy) seen.holds.health in
    rw (p, k, t)
      (rw c (
        rw (seen.returned) (
          Yields-ok _ (
            seen.holds.lifecycle,
            seen.holds.health,
            rw (not_preserved, opened) (rw is_healthy refl),
            rw recovering refl,
          ))))
