-- ===== src/Fleet/Entity.antt =====
-- The entity of a device in a known state, and the calls that succeed on it (internal/domain/device.go
-- as internal/hostcommand/service.go uses it).
use alcor_device_farm.Prelude.{
  ℕ, ◌≡◌, ◌≢◌, refl, ap, ◌∙◌, inl, inr, true, false, ◌&&◌, not, String, none, [], ◌∷◌, ◌++◌,
  Bool-cases, ◌==◌, arith,
}
use alcor_device_farm.Text.{is_identifier, trim_space, is_empty}
use alcor_device_farm.Failure.{
  from_domain, checked, checked-ok, OnOk, OnOk-ok, OnOk-err, Yields, Yields-ok,
}
use alcor_device_farm.Domain.Machine.{permits, new_state_machine, accept}
use alcor_device_farm.Domain.Lifecycle.{
  DeviceLifecycleStatus, lifecycle_same, lifecycle_status, valid_lifecycle, device_transitions,
}
use alcor_device_farm.Domain.Health.{
  HealthStatus, valid_health, health_same, health_same_iff, health_status, health_transitions,
}
use alcor_device_farm.Domain.Device.{
  Device, restore_device, transition_device, update_health, health_event,
}
use alcor_device_farm.Domain.Device.Acceptance.{transition_device-accept, update_health_effect}
use alcor_device_farm.Fleet.{become, report, report_change}

-- The device has the lifecycle `s` and the health `h`, on the machine of device.go.
pub record IsAt (s : DeviceLifecycleStatus) (h : HealthStatus) (d : Device) : Type 0 where
  pub valid : d.lifecycle.valid ≡ valid_lifecycle
  pub table : d.lifecycle.transitions ≡ device_transitions
  pub lifecycle : d.lifecycle.status ≡ s
  pub health : d.health ≡ h

pub restore-IsAt :
    (id : String) (s : DeviceLifecycleStatus) (h : HealthStatus)
    → is_identifier id ≡ true
    → valid_lifecycle s ≡ true
    → valid_health h ≡ true
    → Yields (IsAt s h) (from_domain (restore_device id s h))
unfolding from_domain restore_device new_state_machine
restore-IsAt id s h i v w =
    rw (i, from_domain, restore_device, new_state_machine)
      (rw v (
        rw w
          (Yields-ok _ (record { valid = refl; table = refl; lifecycle = refl; health = refl }))))

-- A lifecycle call succeeds along the table, with a reason and a time, and to `ready` if healthy.
pub become-IsAt :
    (to s : DeviceLifecycleStatus) (h : HealthStatus) (reason : String) (now : ℕ) (d : Device)
    → now ≢ 0
    → is_empty (trim_space reason) ≡ false
    → valid_lifecycle to ≡ true
    → permits device_transitions s to ≡ true
    → (lifecycle_same to DeviceLifecycleStatus.ready && not (health_same h HealthStatus.healthy))
      ≡ false
    → IsAt s h d
    → Yields (IsAt to h) (become to reason now d)
unfolding checked accept
become-IsAt to s h reason now d n r v p g at =
    let called =
      transition_device-accept d to reason now
        (record {
          known = ap (λ f. f to) at.valid ∙ v;
          explained = r;
          dated = n;
          permitted =
              ap (λ f. permits f d.lifecycle.status to) at.table
              ∙ ap (λ x. permits device_transitions x to) at.lifecycle
              ∙ p;
        })
        (ap
            (λ x.
              lifecycle_same to DeviceLifecycleStatus.ready
              && not (health_same x HealthStatus.healthy))
            at.health
          ∙ g) in
    rw called (
      Yields-ok _
        (record { valid = at.valid; table = at.table; lifecycle = refl; health = at.health }))

-- A health report succeeds along the table, with a reason and a time.
pub report-IsAt :
    (to : HealthStatus) (s : DeviceLifecycleStatus) (h : HealthStatus) (reason : String) (now : ℕ)
    (d : Device)
    → now ≢ 0
    → is_empty (trim_space reason) ≡ false
    → valid_health to ≡ true
    → permits health_transitions h to ≡ true
    → IsAt s h d
    → Yields (IsAt s to) (report to reason now d)
unfolding checked update_health
report-IsAt to s h reason now d n r v p at =
    let t : (now == 0) ≡ false = ground arith in
    let permitted = ap (λ x. permits health_transitions x to) at.health ∙ p in
    let called : update_health d to reason now ≡ (
      record d { health = to; events = d.events ++ health_event d to reason now true "" ∷ [] },
      none,
    ) =
      rw (v, update_health) (rw r (rw t (rw permitted refl))) in
    rw called (
      Yields-ok _
        (record { valid = at.valid; table = at.table; lifecycle = at.lifecycle; health = refl }))

-- The same, where nothing is reported if that is the health already.
pub report_change-IsAt :
    (to : HealthStatus) (s : DeviceLifecycleStatus) (h : HealthStatus) (reason : String) (now : ℕ)
    (d : Device)
    → now ≢ 0
    → is_empty (trim_space reason) ≡ false
    → valid_health to ≡ true
    → (health_same h to ≡ false → permits health_transitions h to ≡ true)
    → IsAt s h d
    → Yields (IsAt s to) (report_change to reason now d)
report_change-IsAt to s h reason now d n r v p at = elim (Bool-cases (health_same h to)) [
  | inl y ↦
      let already = ap (λ x. health_same x to) at.health ∙ y in
      rw already (
        Yields-ok d (record {
          valid = at.valid;
          table = at.table;
          lifecycle = at.lifecycle;
          health = (health_same_iff d.health to).0 already;
        }))
  | inr y ↦
      let other = ap (λ x. health_same x to) at.health ∙ y in
      rw other (report-IsAt to s h reason now d n r v (p y) at)
]

-- a valid health that is not healthy may become so, and any may become unhealthy that is not
pub to_healthy :
    (h : HealthStatus)
    → valid_health h ≡ true
    → health_same h HealthStatus.healthy ≡ false
    → permits health_transitions h HealthStatus.healthy ≡ true
unfolding valid_health
to_healthy HealthStatus.unknown v e = refl
to_healthy HealthStatus.healthy v e = cc
to_healthy HealthStatus.degraded v e = refl
to_healthy HealthStatus.unhealthy v e = refl
to_healthy (HealthStatus.other x) v e = cc

pub to_unhealthy :
    (h : HealthStatus)
    → valid_health h ≡ true
    → health_same h HealthStatus.unhealthy ≡ false
    → permits health_transitions h HealthStatus.unhealthy ≡ true
unfolding valid_health
to_unhealthy HealthStatus.unknown v e = refl
to_unhealthy HealthStatus.healthy v e = refl
to_unhealthy HealthStatus.degraded v e = refl
to_unhealthy HealthStatus.unhealthy v e = cc
to_unhealthy (HealthStatus.other x) v e = cc

-- a restored entity has what it was restored with
pub restored-IsAt :
    (id : String) (s : DeviceLifecycleStatus) (h : HealthStatus)
    → OnOk (IsAt s h) (from_domain (restore_device id s h))
unfolding from_domain restore_device new_state_machine
restored-IsAt id s h = elim (Bool-cases (is_identifier id)) [
  | inr n ↦ rw (n, from_domain, restore_device, new_state_machine) (OnOk-err _)
  | inl i ↦ elim (Bool-cases (valid_lifecycle s)) [
    | inr n ↦ rw (i, from_domain, restore_device, new_state_machine) (rw n (OnOk-err _))
    | inl v ↦ elim (Bool-cases (valid_health h)) [
      | inr n ↦ rw (i, from_domain, restore_device, new_state_machine) (rw v (rw n (OnOk-err _)))
      | inl w ↦
          rw (i, from_domain, restore_device, new_state_machine)
            (rw v (
              rw w (
                OnOk-ok _
                  (record { valid = refl; table = refl; lifecycle = refl; health = refl }))))
    ]
  ]
]

-- A health report keeps the lifecycle.
pub report-lifecycle :
    (to : HealthStatus) (reason : String) (now : ℕ) (d : Device)
    → OnOk (λ a. a.lifecycle.status ≡ d.lifecycle.status) (report to reason now d)
report-lifecycle to reason now d = record {
  apply = λ a e.
      let (accepted, same) = checked-ok (update_health d to reason now) e in
      rw⁻¹ same (ap (λ m. m.status) ((update_health_effect d to reason now).0));
}

-- so does a report that is left out where nothing changes
pub report_change-lifecycle :
    (to : HealthStatus) (reason : String) (now : ℕ) (d : Device)
    → OnOk (λ a. a.lifecycle.status ≡ d.lifecycle.status) (report_change to reason now d)
report_change-lifecycle to reason now d = elim (Bool-cases (health_same d.health to)) [
  | inl y ↦ rw y (OnOk-ok d refl)
  | inr y ↦ rw y (report-lifecycle to reason now d)
]

-- A lifecycle call keeps the health.
pub become-health :
    (to : DeviceLifecycleStatus) (reason : String) (now : ℕ) (d : Device)
    → OnOk (λ a. a.health ≡ d.health) (become to reason now d)
unfolding transition_device
become-health to reason now d = record {
  apply = λ a e.
      let (accepted, same) = checked-ok (transition_device d to reason now) e in
      rw⁻¹ same (ground arith);
}
