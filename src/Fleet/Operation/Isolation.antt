-- ===== src/Fleet/Operation/Isolation.antt =====
-- An operation that failed leaves its device isolated (internal/hostcommand/service.go).
use alcor_device_farm.Prelude.{
  ℕ, suc, ◌≡◌, refl, ap, sym, ◌∙◌, inl, inr, false, String, Option, none, some, Bool-cases,
  Option-cases, arith,
}
use alcor_device_farm.Failure.{ok, checked-ok, OnOk, OnOk-ok, >>=-OnOk, >>=-chain, if-OnOk}
use alcor_device_farm.Json.{Fields}
use alcor_device_farm.Domain.Machine.{accept}
use alcor_device_farm.Domain.Command.{CommandStatus}
use alcor_device_farm.Domain.Lifecycle.{DeviceLifecycleStatus, lifecycle_same_iff}
use alcor_device_farm.Domain.Health.{HealthStatus, health_same, health_same_iff}
use alcor_device_farm.Domain.Device.{Device, transition_device, update_health}
use alcor_device_farm.Domain.Device.Acceptance.{
  transition_device-none_iff, transition_device-accept, update_health_effect,
}
use alcor_device_farm.HostCommand.Table.{CommandRow}
use alcor_device_farm.Fleet.{DeviceColumns, become, report_change}
use alcor_device_farm.Fleet.Entity.{become-health}
use alcor_device_farm.Fleet.Operation.Outcome.{
  Outside, Done, has_status, isolate, failed_columns, finish, finish_operation, valid_result,
}
use alcor_device_farm.Fleet.Operation.Kinds.{
  is_at, isolate_once, fail_operation, reconcile_start, reconcile_stop, reconcile_delete,
}
use alcor_device_farm.Fleet.Operation.Replacements.{reconcile_reimage, reconcile_profile}
use alcor_device_farm.Fleet.Operation.{Request, reconcile_kind}

become-status :
    (to : DeviceLifecycleStatus) (reason : String) (now : ℕ) (a : Device)
    → OnOk (λ b. b.lifecycle.status ≡ to) (become to reason now a)
unfolding accept
become-status to reason now a = record {
  apply = λ b e.
      let (accepted, same) = checked-ok (transition_device a to reason now) e in
      let (accepts, gate) = (transition_device-none_iff a to reason now).0 accepted in
      let called = transition_device-accept a to reason now accepts (
        ground (
          arith,
          lifecycle_same_iff to DeviceLifecycleStatus.ready,
          health_same_iff a.health HealthStatus.healthy,
          gate,
        )) in
      ap (λ x. x.lifecycle.status) (sym (sym (ap (λ x. x.0) called) ∙ same));
}

report_change-health :
    (to : HealthStatus) (reason : String) (now : ℕ) (a : Device)
    → OnOk (λ b. b.health ≡ to) (report_change to reason now a)
report_change-health to reason now a = elim (Bool-cases (health_same a.health to)) [
  | inl y ↦ rw y (OnOk-ok a ((health_same_iff a.health to).0 y))
  | inr y ↦ rw y (record {
    apply = λ b e.
        let (accepted, same) = checked-ok (update_health a to reason now) e in
        elim ((update_health_effect a to reason now).1) [
          | inl (accepts, _, judgement) ↦ rw⁻¹ same judgement
          | inr (refused, failed, _) ↦ absurd (failed accepted)
        ];
  })
]

-- in quarantine and unhealthy
abbrev pub IsOut : Device → Type 0
IsOut a =
    (a.lifecycle.status ≡ DeviceLifecycleStatus.quarantined) × (a.health ≡ HealthStatus.unhealthy)

isolate-IsOut : (reason : String) (now : ℕ) (a : Device) → OnOk IsOut (isolate reason now a)
isolate-IsOut reason now a = >>=-chain (report_change-health _ reason now a) λ b ill. record {
  apply = λ e f. (
    (become-status DeviceLifecycleStatus.quarantined reason now b).apply e f,
    (become-health DeviceLifecycleStatus.quarantined reason now b).apply e f ∙ ill,
  );
}

pub isolate_once-IsOut :
    (reason : String) (now : ℕ) (a : Device) → OnOk IsOut (isolate_once reason now a)
isolate_once-IsOut reason now a = >>=-chain (report_change-health _ reason now a) λ b ill.
    elim (Bool-cases (is_at DeviceLifecycleStatus.quarantined b)) [
      | inl y ↦ rw y (
          OnOk-ok b
            ((lifecycle_same_iff b.lifecycle.status DeviceLifecycleStatus.quarantined).0 y, ill))
      | inr y ↦ rw y (record {
        apply = λ e f. (
          (become-status DeviceLifecycleStatus.quarantined reason now b).apply e f,
          (become-health DeviceLifecycleStatus.quarantined reason now b).apply e f ∙ ill,
        );
      })
    ]

-- The columns of a device that was taken out of use for a reason, with one failure more.
pub record IsIsolated (d n : DeviceColumns) : Type 0 where
  pub quarantined : n.lifecycle_status ≡ DeviceLifecycleStatus.quarantined
  pub unhealthy : n.health_status ≡ HealthStatus.unhealthy
  pub reason : String
  pub reasoned : n.health_reason ≡ some reason
  pub failures : n.consecutive_failures ≡ suc d.consecutive_failures

-- the reconciliation changes the device, and isolates it
abbrev pub Isolates : DeviceColumns → Option Done → Type 0
Isolates d none = ⊥
Isolates d (some done) = IsIsolated d done.columns

failed-IsIsolated :
    (d : DeviceColumns) (reason : String) (now : ℕ) (a : Device)
    → IsOut a
    → IsIsolated d (failed_columns reason now a d)
failed-IsIsolated d reason now a out = record {
  quarantined = out.0;
  unhealthy = out.1;
  reason = reason;
  reasoned = refl;
  failures = refl;
}

module _ (o : Outside) (c : CommandRow) (d : DeviceColumns) where
  fail-Isolates : (code reason : String) → OnOk (Isolates d) (fail_operation o c code reason d)
  unfolding fail_operation finish_operation finish
  fail-Isolates code reason = >>=-OnOk λ a _.
      >>=-chain (isolate-IsOut reason o.now a)
        λ b out. >>=-OnOk λ id _. OnOk-ok _ (failed-IsIsolated d reason o.now b out)

  module _ (failed : has_status CommandStatus.succeeded c ≡ false) where
    stop-Isolates : OnOk (Isolates d) (reconcile_stop o c d)
    unfolding reconcile_stop
    stop-Isolates = rw (failed, reconcile_stop) (fail-Isolates _ _)

    start-Isolates : OnOk (Isolates d) (reconcile_start o c d)
    unfolding reconcile_start
    start-Isolates = elim (Option-cases (valid_result o c)) [
      | inl n ↦ rw (n, reconcile_start) (fail-Isolates _ _)
      | inr (value, n) ↦ rw (n, reconcile_start) (rw failed (fail-Isolates _ _))
    ]

    delete-Isolates : OnOk (Isolates d) (reconcile_delete o c d)
    unfolding reconcile_delete finish_operation finish
    delete-Isolates =
        rw (failed, reconcile_delete)
          (>>=-OnOk λ a _.
            >>=-chain (isolate_once-IsOut _ o.now a)
              λ b out. >>=-OnOk λ id _. OnOk-ok _ (failed-IsIsolated d _ o.now b out))

    module _ (nothing : valid_result o c ≡ none) where
      reimage-Isolates : (payload : Fields) → OnOk (Isolates d) (reconcile_reimage o c payload d)
      unfolding reconcile_reimage finish
      reimage-Isolates payload = >>=-OnOk λ a _. rw nothing (
          >>=-chain (isolate-IsOut _ o.now a) λ b out. >>=-OnOk λ id _. OnOk-ok _ (record {
            quarantined = out.0;
            unhealthy = out.1;
            reason = _;
            reasoned = refl;
            failures = refl;
          }))

      profile-Isolates : (payload : Fields) → OnOk (Isolates d) (reconcile_profile o c payload d)
      unfolding reconcile_profile finish
      profile-Isolates payload = >>=-OnOk λ a _. rw nothing (
          >>=-chain (isolate_once-IsOut _ o.now a) λ b out. >>=-OnOk λ id _. OnOk-ok _ (record {
            quarantined = out.0;
            unhealthy = out.1;
            reason = _;
            reasoned = refl;
            failures = refl;
          }))

-- When an operation of any kind did not succeed and returned no valid state of the device, then a
-- reconciliation that returns without an error changes the device: it is in quarantine and unhealthy,
-- for a reason and with one failure more.
pub reconcile_kind-Isolates :
    (o : Outside) (c : CommandRow) (payload : Fields) (q : Request) (d : DeviceColumns)
    {change : Option Done}
    → has_status CommandStatus.succeeded c ≡ false
    → valid_result o c ≡ none
    → reconcile_kind o c payload q d ≡ ok change
    → Isolates d change
unfolding reconcile_kind
reconcile_kind-Isolates o c payload q d {change} failed nothing e =
    let all : OnOk (Isolates d) (reconcile_kind o c payload q d) =
      if-OnOk _ (delete-Isolates o c d failed) (
        if-OnOk _ (reimage-Isolates o c d failed nothing payload) (
          if-OnOk _ (profile-Isolates o c d failed nothing payload)
            (if-OnOk _ (stop-Isolates o c d failed) (start-Isolates o c d failed)))) in
    all.apply change e
