-- ===== src/HostCommand/Recovery.antt =====
-- The recovery of leases that ran out ends (internal/hostcommand/service.go, RunLeaseRecovery).
use alcor_device_farm.Prelude.{
  ℕ, zero, suc, ◌<◌, ◌≡◌, refl, inl, inr, Bool, false, String, some, List, [], ◌∷◌, arith, eq_refl,
  Option-cases, Bool-cases, ltb,
}
use alcor_device_farm.Failure.{
  Error, not_found, OnOk, OnOk-ok, OnOk-err, >>=-OnOk, >>-OnOk, Result-cases,
}
use alcor_device_farm.Store.Rows.{
  find_row, count, both, count-update_where, count-none, count-find_row, count-append,
}
use alcor_device_farm.Store.Lookup.{least-found}
use alcor_device_farm.Repository.Writes.{update_returning-ok}
use alcor_device_farm.HostCommand.Table.{
  CommandRow, CreateCommandParams, has_id, has_key, create, new_row, is_leased,
  recover_expired_lease, next_abandoned, recovered_row,
}
use alcor_device_farm.HostCommand.Service.{
  Outside, Reconcile, create_all, reconciled, recover_expired_once, Turn, Recovered,
  run_lease_recovery,
}
use alcor_device_farm.HostCommand.Implements.{IsKeyed, recover-Implements}
use alcor_device_farm.HostCommand.Steps.{recovery-OnOk, reconciled-Implements}

abbrev pub leases : List CommandRow → ℕ
leases rows = count is_leased rows

create-leases :
    (hosts : String → Bool) (rows : List CommandRow) (p : CreateCommandParams) (clock : ℕ)
    → OnOk (λ t. leases t.1 ≡ leases rows) (create hosts rows p clock)
unfolding create count
create-leases hosts rows p clock = >>-OnOk λ checked.
    elim (Option-cases (find_row (has_key p.host_id p.idempotency_key) rows)) [
      | inr (r, e) ↦ rw e (>>-OnOk λ _. OnOk-ok _ refl)
      | inl e ↦ rw e (
          >>-OnOk λ _. >>-OnOk λ _.
            >>-OnOk
              λ _. OnOk-ok _ (ground (arith, count-append is_leased rows (new_row p clock ∷ []))))
    ]

create_all-leases :
    (hosts : String → Bool) (rows : List CommandRow) (ps : List CreateCommandParams) (clock : ℕ)
    → OnOk (λ t. leases t ≡ leases rows) (create_all hosts rows ps clock)
unfolding create_all
create_all-leases hosts rows [] clock = OnOk-ok _ refl
create_all-leases hosts rows (p ∷ ps) clock = >>=-OnOk λ t e. record {
  apply = λ u f. omega (
    arith,
    (create-leases hosts rows p clock).apply t e,
    (create_all-leases hosts t.1 ps clock).apply u f,
  );
}

recovered-not_leased : (clock : ℕ) (r : CommandRow) → is_leased (recovered_row clock r) ≡ false
recovered-not_leased clock r = elim (Bool-cases (ltb r.attempts r.max_attempts)) [
  | inl e ↦ rw e refl
  | inr e ↦ rw e refl
]

recover-leases :
    (rows : List CommandRow) (locked : String → Bool) (clock : ℕ)
    → IsKeyed rows
    → OnOk (λ t. leases t.1 < leases rows) (recover_expired_lease rows locked clock)
unfolding recover_expired_lease next_abandoned
recover-leases rows locked clock keyed = elim (Option-cases (next_abandoned rows locked clock)) [
  | inl n ↦ rw (n, recover_expired_lease) (OnOk-err _)
  | inr (c, n) ↦
      let (passes, found) =
        least-found (λ a b. has_id a.id b) (λ r. eq_refl r.id) _ _ rows (λ r. keyed r.id) n in
      rw (n, recover_expired_lease)
        (record {
          apply = λ t e.
              let (r, f, out) =
                update_returning-ok (has_id c.id) (recovered_row clock) rows not_found e in
              rw out (
                omega (
                  arith,
                  count-update_where (has_id c.id) is_leased (recovered_row clock) rows,
                  count-none (both (has_id c.id) (λ x. is_leased (recovered_row clock x))) rows
                      (λ x. ground (arith, recovered-not_leased clock x)),
                  count-find_row (has_id c.id) is_leased rows found (ground (arith, passes)),
                ));
        })
]

once-leases :
    (o : Outside) (reconcile : Reconcile) (locked : String → Bool) (rows : List CommandRow)
    → IsKeyed rows
    → OnOk (λ t. leases t.1 < leases rows) (recover_expired_once o reconcile locked rows)
unfolding recover_expired_once reconciled
once-leases o reconcile locked rows k = recovery-OnOk _ _ (
    >>=-OnOk λ t e. >>=-OnOk λ created _. >>=-OnOk λ u f. OnOk-ok _ (
      omega (
        arith,
        (recover-leases rows locked o.clock k).apply t e,
        (create_all-leases o.hosts t.1 created o.clock).apply u f,
      )))

once-IsKeyed :
    (o : Outside) (reconcile : Reconcile) (locked : String → Bool) (rows : List CommandRow)
    → IsKeyed rows
    → OnOk (λ t. IsKeyed t.1) (recover_expired_once o reconcile locked rows)
unfolding recover_expired_once
once-IsKeyed o reconcile locked rows k = recovery-OnOk _ _ (record {
  apply = λ t e id.
      ((reconciled-Implements o reconcile rows _ (recover-Implements rows locked o.clock k)).apply t
          e).keyed
        id (k id);
})

-- The loop met an error.
pub record HasEnded (out : Recovered) : Type 0 where
  pub error : Error
  pub is : out.ended ≡ some error

recovery-ends :
    (turns : ℕ → Turn) (n : ℕ) (rows : List CommandRow)
    → IsKeyed rows
    → leases rows < n
    → HasEnded (run_lease_recovery turns n rows)
unfolding run_lease_recovery
recovery-ends turns zero rows k h = absurd (omega arith)
recovery-ends turns (suc n) rows k h =
    let turn = turns n in
    elim (Result-cases (recover_expired_once turn.outside turn.reconcile turn.locked rows)) [
      | inl (t, e) ↦
          rw (e, run_lease_recovery)
            (recovery-ends turns n t.1
              ((once-IsKeyed turn.outside turn.reconcile turn.locked rows k).apply t e)
              (omega
                (arith, h, (once-leases turn.outside turn.reconcile turn.locked rows k).apply t e)))
      | inr (x, e) ↦ rw (e, run_lease_recovery) (record { error = x; is = refl })
    ]

-- Between two ticks the recovery of leases ends, whatever the rest of its transactions does, after at
-- most as many successes as there are leased commands, when nothing else changes the table, in which
-- no id is twice.
pub run_lease_recovery-HasEnded :
    (turns : ℕ → Turn) (rows : List CommandRow)
    → IsKeyed rows
    → HasEnded (run_lease_recovery turns (suc (leases rows)) rows)
run_lease_recovery-HasEnded turns rows k =
    recovery-ends turns (suc (leases rows)) rows k (omega arith)
