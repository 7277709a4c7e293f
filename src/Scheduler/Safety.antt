-- ===== src/Scheduler/Safety.antt =====
-- A round of the scheduler keeps the invariant of the store.
use alcor_device_farm.Prelude.{inl, inr, Bool, true, false, String, Bool-cases, Option-cases, not}
use alcor_device_farm.Failure.{OnOk, OnOk-ok, >>=-OnOk, >>-OnOk, Result-cases}
use alcor_device_farm.Store.{Store}
use alcor_device_farm.Repository.Writes.{compensate_claim}
use alcor_device_farm.Scheduler.{
  ClaimCandidate, Outside, claim, activate, compensated, start, proceed, run_once, uses_stf,
}
use alcor_device_farm.Kept.{Kept}

module _ (I : Store → Type 0) (kept : Kept I) where
  pub claim-keeps : (s : Store) (o : Outside) → I s → OnOk (λ t. I t.1) (claim s o)
  unfolding claim
  claim-keeps s o x = >>=-OnOk λ r _. >>=-OnOk λ d _. >>=-OnOk λ p _. >>-OnOk λ _. >>=-OnOk λ v _.
      >>=-OnOk
        λ w _. >>=-OnOk λ t e. OnOk-ok _ ((kept.by_reserve s r.id d.id o.claimed_at x).apply t e)

  pub activate-keeps :
      (s : Store) (c : ClaimCandidate) (session : String) (o : Outside)
      → I s
      → OnOk (λ t. I t.1) (activate s c session o)
  unfolding activate
  activate-keeps s c session o x = >>=-OnOk λ r _. >>-OnOk λ _. >>=-OnOk λ p _. >>-OnOk λ _.
      >>=-OnOk λ d _. >>=-OnOk λ a _. >>=-OnOk λ b _. >>=-OnOk λ v _. >>=-OnOk λ w _.
        >>=-OnOk λ y _. >>=-OnOk λ z _.
          >>=-OnOk
            λ t e. OnOk-ok _ ((kept.by_activate s r.id d.id session o.activated_at x).apply t e)

  pub compensated-keeps :
      (s : Store) (c : ClaimCandidate) (code : String) (terminal : Bool) (o : Outside)
      → I s
      → I (compensated s c code terminal o)
  unfolding compensated
  compensated-keeps s c code terminal o x =
      let r = compensate_claim s c.reservation.id c.device.id code terminal o.compensated_at in
      elim (Result-cases r) [
        | inl (t, e) ↦
            rw (e, compensated)
              ((kept.by_compensate s c.reservation.id c.device.id code terminal o.compensated_at
                  x).apply
                t e)
        | inr (e, f) ↦ rw (f, compensated) x
      ]

  start-keeps : (s : Store) (c : ClaimCandidate) (o : Outside) → I s → I (start s c o).store
  unfolding start
  start-keeps s c o x = elim (Option-cases o.session_id) [
    | inl e ↦ rw (e, start) (compensated-keeps s c "SESSION_ID_GENERATION_FAILED" true o x)
    | inr (id, e) ↦ elim (Result-cases (activate s c id o)) [
      | inl ((a, t), f) ↦ rw (e, start) (rw f ((activate-keeps s c id o x).apply (a, t) f))
      | inr (y, f) ↦ rw (e, start) (rw f (compensated-keeps s c "STF_CLAIM_COMPENSATED" false o x))
    ]
  ]

  proceed-keeps : (s : Store) (c : ClaimCandidate) (o : Outside) → I s → I (proceed s c o).store
  unfolding proceed
  proceed-keeps s c o x = elim (Bool-cases (uses_stf c o)) [
    | inr e ↦ rw (e, proceed) (start-keeps s c o x)
    | inl e ↦ elim (Option-cases o.claim_failure) [
      | inl f ↦ rw (e, f, proceed) (start-keeps s c o x)
      | inr (retryable, f) ↦
          rw (e, f, proceed) (compensated-keeps s c "STF_CLAIM_FAILED" (not retryable) o x)
    ]
  ]

  -- A round of the scheduler, however it ends, leaves a store in which no device is held by two
  -- reservations and no ready device is held, if the store before it is such a one.
  pub run_once-keeps : (s : Store) (o : Outside) → I s → I (run_once s o).store
  unfolding run_once
  run_once-keeps s o x = elim (Result-cases (claim s o)) [
    | inl ((c, t), e) ↦ rw (e, run_once) (proceed-keeps t c o ((claim-keeps s o x).apply (c, t) e))
    | inr (y, e) ↦ rw (e, run_once) x
  ]
