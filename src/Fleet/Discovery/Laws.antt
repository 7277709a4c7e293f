-- ===== src/Fleet/Discovery/Laws.antt =====
-- What a heartbeat leaves of a device (internal/hostcommand/service.go, updateDiscoveredDevice).
use alcor_device_farm.Prelude.{
  ℕ, ◌≡◌, refl, subst, ◌∙◌, true, false, ◌&&◌, not, String, none, some, arith,
}
use alcor_device_farm.Failure.{ok, OnOk, OnOk-ok, >>=-OnOk, >>-OnOk}
use alcor_device_farm.Domain.Lifecycle.{DeviceLifecycleStatus}
use alcor_device_farm.Domain.Reasons.{is_system_recoverable}
use alcor_device_farm.Fleet.{DeviceColumns}
use alcor_device_farm.Fleet.Entity.{IsAt, restored-IsAt}
use alcor_device_farm.Fleet.Discovery.{
  DiscoveredDevice, Situation, is_in, is_open, recovers, observed, update_discovered_device,
  discovered_columns,
}

-- A device on which an operation is in flight, that is deleted, or that is in quarantine for a reason
-- that the system may not lift.
pub data Shielded (d : DeviceColumns) (now_in : Situation) : Type 0 where
  in_flight : now_in.operation_in_flight ≡ true → Shielded d now_in
  is_deleted : d.lifecycle_status ≡ DeviceLifecycleStatus.deleted → Shielded d now_in
  isolated :
      d.lifecycle_status ≡ DeviceLifecycleStatus.quarantined
      → d.health_reason ≡ none
      → Shielded d now_in
  isolated_for :
      d.lifecycle_status ≡ DeviceLifecycleStatus.quarantined
      → (reason : String) → d.health_reason ≡ some reason
      → is_system_recoverable reason ≡ false
      → Shielded d now_in

shielded :
    (d : DeviceColumns) (discovered : DiscoveredDevice) (now_in : Situation)
    → Shielded d now_in
    → (is_open d discovered now_in ≡ false)
      × (recovers d discovered now_in ≡ false)
      × ((not (is_in DeviceLifecycleStatus.quarantined d)
            && not (is_in DeviceLifecycleStatus.deleted d)
            && not now_in.operation_in_flight)
          ≡ false)
unfolding is_open recovers
shielded d discovered now_in (in_flight h) =
    (ground (arith, h), ground (arith, h), ground (arith, h))
shielded d discovered now_in (is_deleted h) = rw h (ground arith, refl, refl)
shielded d discovered now_in (isolated h r) = rw (h, r) (ground arith, ground arith, refl)
shielded d discovered now_in (isolated_for h reason r n) =
    rw (h, r) (rw n (ground arith, ground arith, refl))

observed-shielded :
    (d : DeviceColumns) (discovered : DiscoveredDevice) (now_in : Situation) (now : ℕ)
    → is_open d discovered now_in ≡ false
    → recovers d discovered now_in ≡ false
    → OnOk (IsAt d.lifecycle_status d.health_status) (observed d discovered now_in now)
unfolding observed
observed-shielded d discovered now_in now closed kept = >>=-OnOk λ r e. >>=-OnOk λ a f.
    >>=-OnOk λ b g. record {
      apply = λ c h.
          let restored : r ≡ a = ground (arith, f, kept) in
          let reported : a ≡ b = ground (arith, g, closed) in
          let followed : b ≡ c = ground (arith, h, closed) in
          let same = restored ∙ reported ∙ followed in
          subst (IsAt d.lifecycle_status d.health_status) same
            ((restored-IsAt d.id d.lifecycle_status d.health_status).apply r e);
    }

-- A heartbeat that succeeds leaves the lifecycle, the health, the reason and the failures of a device
-- on which an operation is in flight, that is deleted, or that is in quarantine for a reason that the
-- system may not lift.
pub update-shielded :
    (lower redact_text : String → String) (d : DeviceColumns) (discovered : DiscoveredDevice)
    (now_in : Situation) (now : ℕ) {e : DeviceColumns}
    → Shielded d now_in
    → update_discovered_device lower redact_text d discovered now_in now ≡ ok e
    → (e.lifecycle_status ≡ d.lifecycle_status)
      × (e.health_status ≡ d.health_status)
      × (e.health_reason ≡ d.health_reason)
      × (e.consecutive_failures ≡ d.consecutive_failures)
unfolding update_discovered_device discovered_columns
update-shielded lower redact_text d discovered now_in now {e} s h =
    let (closed, kept, plain) = shielded d discovered now_in s in
    let result : OnOk
        (λ e.
          (e.lifecycle_status ≡ d.lifecycle_status)
          × (e.health_status ≡ d.health_status)
          × (e.health_reason ≡ d.health_reason)
          × (e.consecutive_failures ≡ d.consecutive_failures))
        (update_discovered_device lower redact_text d discovered now_in now) =
      >>-OnOk λ _. >>=-OnOk λ connection _. >>=-OnOk λ a f.
        let at = (observed-shielded d discovered now_in now closed kept).apply a f in
        OnOk-ok _ (at.lifecycle, at.health, ground (arith, closed), ground (arith, kept, plain)) in
    result.apply e h
