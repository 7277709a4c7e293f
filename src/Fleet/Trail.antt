-- ===== src/Fleet/Trail.antt =====
-- The moves that device.go allows a device, and the entities that stay on them.
use alcor_device_farm.Prelude.{
  ℕ, ◌≡◌, ap, ◌∙◌, sym, subst, inl, inr, true, String, Bool-cases, arith,
}
use alcor_device_farm.Failure.{from_domain, checked-ok, OnOk, OnOk-ok, OnOk-imp}
use alcor_device_farm.Domain.Machine.{permits, accept}
use alcor_device_farm.Domain.Lifecycle.{
  DeviceLifecycleStatus, lifecycle_status, lifecycle_same_iff, device_transitions,
}
use alcor_device_farm.Domain.Health.{
  HealthStatus, health_status, health_transitions, health_same, health_same_iff,
}
use alcor_device_farm.Domain.Device.{Device, restore_device, transition_device, update_health}
use alcor_device_farm.Domain.Device.Acceptance.{
  transition_device-none_iff, transition_device-accept, update_health_effect,
}
use alcor_device_farm.Fleet.{become, report, report_change}
use alcor_device_farm.Fleet.Entity.{restored-IsAt}

-- A device moves from one lifecycle and health to others: along the table of the lifecycle, to `ready`
-- only while it is healthy, or along the table of the health.
pub data Trail (s : DeviceLifecycleStatus) (h : HealthStatus)
    : DeviceLifecycleStatus → HealthStatus → Type 0 where
  here : Trail s h s h
  moved :
      {l : DeviceLifecycleStatus} {k : HealthStatus}
      → Trail s h l k
      → (to : DeviceLifecycleStatus) → permits device_transitions l to ≡ true
      → (to ≡ DeviceLifecycleStatus.ready → k ≡ HealthStatus.healthy)
      → Trail s h to k
  judged :
      {l : DeviceLifecycleStatus} {k : HealthStatus}
      → Trail s h l k
      → (to : HealthStatus) → permits health_transitions k to ≡ true
      → Trail s h l to

-- the entity of a device that moved so
pub record IsOn (s : DeviceLifecycleStatus) (h : HealthStatus) (a : Device) : Type 0 where
  pub table : a.lifecycle.transitions ≡ device_transitions
  pub trail : Trail s h a.lifecycle.status a.health

module _ (s : DeviceLifecycleStatus) (h : HealthStatus) where
  pub restored-IsOn : (id : String) → OnOk (IsOn s h) (from_domain (restore_device id s h))
  restored-IsOn id =
      OnOk-imp _ _ _
        (λ a at. record {
          table = at.table;
          trail =
              subst (λ l. Trail s h l a.health) (sym at.lifecycle)
                (subst (λ k. Trail s h s k) (sym at.health) here);
        })
        (restored-IsAt id s h)

  pub become-IsOn :
      (to : DeviceLifecycleStatus) (reason : String) (now : ℕ) (a : Device)
      → IsOn s h a
      → OnOk (IsOn s h) (become to reason now a)
  unfolding accept
  become-IsOn to reason now a on = record {
    apply = λ b e.
        let (accepted, same) = checked-ok (transition_device a to reason now) e in
        let (accepts, gate) = (transition_device-none_iff a to reason now).0 accepted in
        let called = transition_device-accept a to reason now accepts (
          ground (
            arith,
            lifecycle_same_iff to DeviceLifecycleStatus.ready,
            health_same_iff a.health HealthStatus.healthy,
            gate,
          )) in
        let at = sym (ap (λ x. x.0) called) ∙ same in
        subst (IsOn s h) at (record {
          table = on.table;
          trail =
              moved on.trail to
                (sym (ap (λ f. permits f a.lifecycle.status to) on.table) ∙ accepts.permitted) gate;
        });
  }

  pub report-IsOn :
      (to : HealthStatus) (reason : String) (now : ℕ) (a : Device)
      → IsOn s h a
      → OnOk (IsOn s h) (report to reason now a)
  report-IsOn to reason now a on = record {
    apply = λ b e.
        let (accepted, same) = checked-ok (update_health a to reason now) e in
        let (kept, how) = update_health_effect a to reason now in
        elim how [
          | inl (accepts, _, judgement) ↦ subst (IsOn s h) same (record {
            table = ap (λ m. m.transitions) kept ∙ on.table;
            trail = subst (Trail s h _) (sym judgement) (
                subst (λ l. Trail s h l to) (sym (ap (λ m. m.status) kept))
                  (judged on.trail to accepts.permitted));
          })
          | inr (refused, failed, _) ↦ absurd (failed accepted)
        ];
  }

  pub report_change-IsOn :
      (to : HealthStatus) (reason : String) (now : ℕ) (a : Device)
      → IsOn s h a
      → OnOk (IsOn s h) (report_change to reason now a)
  report_change-IsOn to reason now a on = elim (Bool-cases (health_same a.health to)) [
    | inl y ↦ rw y (OnOk-ok a on)
    | inr y ↦ rw y (report-IsOn to reason now a on)
  ]
