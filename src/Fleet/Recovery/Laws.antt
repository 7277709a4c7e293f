-- ===== src/Fleet/Recovery/Laws.antt =====
-- Where a device ends up after its host is back.
use alcor_device_farm.Prelude.{
  ℕ, ◌≡◌, ◌≢◌, refl, inl, inr, true, String, Bool-cases, str_eq, if◌then◌else◌,
}
use alcor_device_farm.Text.{trim_space}
use alcor_device_farm.Failure.{◌>>=◌, Yields, Yields-ok, >>=-Yields}
use alcor_device_farm.Domain.Lifecycle.{DeviceLifecycleStatus, valid_lifecycle}
use alcor_device_farm.Domain.Health.{HealthStatus, valid_health}
use alcor_device_farm.Domain.Device.{Device}
use alcor_device_farm.Fleet.{become}
use alcor_device_farm.Fleet.Entity.{IsAt, become-IsAt, report_change-IsAt, to_healthy}
use alcor_device_farm.Fleet.Recovery.{recover_from_host_outage}

-- the lifecycle that an assignment asks for
abbrev pub assigned_lifecycle : String → DeviceLifecycleStatus
assigned_lifecycle assignment =
    if str_eq assignment "busy"
    then DeviceLifecycleStatus.busy
    else if str_eq assignment "reserved"
    then DeviceLifecycleStatus.reserved
    else DeviceLifecycleStatus.ready

-- A device in quarantine with a known health recovers to the lifecycle that its assignment asks for,
-- and is healthy.
pub recover-IsAt :
    (assignment : String) (health : HealthStatus) (now : ℕ) (d : Device)
    → valid_health health ≡ true
    → now ≢ 0
    → IsAt DeviceLifecycleStatus.quarantined health d
    → Yields
        (IsAt (assigned_lifecycle assignment) HealthStatus.healthy)
        (recover_from_host_outage d assignment now)
unfolding recover_from_host_outage trim_space valid_lifecycle valid_health
recover-IsAt assignment health now d v n at =
    >>=-Yields
      (report_change-IsAt HealthStatus.healthy _ health _ now d n refl refl (to_healthy health v)
        at)
      λ a at_a.
        >>=-Yields
          (become-IsAt DeviceLifecycleStatus.provisioning _ _ _ now a n refl refl refl refl at_a)
          λ b at_b.
            >>=-Yields
              (become-IsAt DeviceLifecycleStatus.booting _ _ _ now b n refl refl refl refl at_b)
              λ c at_c.
                >>=-Yields
                  (become-IsAt DeviceLifecycleStatus.ready _ _ _ now c n refl refl refl refl at_c)
                  λ e at_e. elim (Bool-cases (str_eq assignment "busy")) [
                    | inl y ↦ elim (Bool-cases (str_eq assignment "reserved")) [
                      | inl z ↦ rw (y, z) (restored e at_e)
                      | inr z ↦ rw (y, z) (restored e at_e)
                    ]
                    | inr y ↦ elim (Bool-cases (str_eq assignment "reserved")) [
                      | inl z ↦ rw (y, z) (>>=-Yields (reserved e at_e) λ f at_f. Yields-ok f at_f)
                      | inr z ↦ rw (y, z) (>>=-Yields (Yields-ok e at_e) λ f at_f. Yields-ok f at_f)
                    ]
                  ]
  where
    reserved :
        (e : Device)
        → IsAt DeviceLifecycleStatus.ready HealthStatus.healthy e
        → Yields (IsAt DeviceLifecycleStatus.reserved HealthStatus.healthy) (
            become DeviceLifecycleStatus.reserved
              "existing reservation restored after host recovery" now e)
    reserved e at_e =
        become-IsAt DeviceLifecycleStatus.reserved _ _ _ now e n refl refl refl refl at_e

    restored :
        (e : Device)
        → IsAt DeviceLifecycleStatus.ready HealthStatus.healthy e
        → Yields (IsAt DeviceLifecycleStatus.busy HealthStatus.healthy) (
            become DeviceLifecycleStatus.reserved
              "existing reservation restored after host recovery" now e
            >>= λ f.
                become DeviceLifecycleStatus.busy "active session restored after host recovery" now
                  f)
    restored e at_e =
        >>=-Yields (reserved e at_e)
          λ f at_f. become-IsAt DeviceLifecycleStatus.busy _ _ _ now f n refl refl refl refl at_f
