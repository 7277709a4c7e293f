-- ===== src/Reaper/Termination.antt =====
-- The loops of the reaper end (internal/reaper/reaper.go, Run).
use alcor_device_farm.Prelude.{
  ℕ, zero, suc, ◌<◌, ◌≡◌, refl, inl, inr, some, arith, ltb, Bool-cases, Option-cases,
}
use alcor_device_farm.Failure.{Error, ok, Result-cases}
use alcor_device_farm.Store.{Store, ReservationRow}
use alcor_device_farm.Repository.Queries.{
  find_next_expired, find_next_stale_pending, find_next_orphaned_claim,
}
use alcor_device_farm.Reservation.Release.{Outcome, close_ios_session, release_stf}
use alcor_device_farm.Reservation.Reap.{
  reap_once, reap_stale_pending_once, reap_orphaned_claim_once, reap_tx, reap_stale_tx,
  reap_orphan_tx,
}
use alcor_device_farm.Reaper.{
  Policy, Turn, Drained, drain, run_once, run_pending_once, run_orphaned_claim_once,
}
use alcor_device_farm.Reaper.Progress.{
  pending_rows, active_rows, reap_tx-fewer, reap_stale_tx-fewer, reap_orphan_tx-fewer,
  committed-fewer,
}

-- The loop met an error.
pub record HasEnded (d : Drained) : Type 0 where
  pub error : Error
  pub is : d.ended ≡ some error

-- if the call returns a reservation, then the measure is smaller after it
abbrev Falls : (Store → ℕ) → Store → Outcome → Type 0
Falls m s out = (row : ReservationRow) → out.result ≡ ok row → m out.store < m s

module _ (m : Store → ℕ) (sweep : Turn → Store → Outcome) (turns : ℕ → Turn)
    (falls : (t : Turn) (s : Store) → Falls m s (sweep t s)) where
  drain-HasEnded : (n : ℕ) (s : Store) → m s < n → HasEnded (drain sweep turns n s)
  unfolding drain
  drain-HasEnded zero s h = absurd (omega arith)
  drain-HasEnded (suc n) s h = elim (Result-cases (sweep (turns n) s).result) [
    | inl (row, e) ↦
        rw (e, drain)
          (drain-HasEnded n (sweep (turns n) s).store (omega (arith, falls (turns n) s row e)))
    | inr (x, e) ↦ rw (e, drain) (record { error = x; is = refl })
  ]

once-Falls : (p : Policy) (t : Turn) (s : Store) → Falls active_rows s (run_once p t s)
unfolding run_once reap_once
once-Falls p t s = elim (Option-cases (find_next_expired s t.asked p.grace_period)) [
  | inl n ↦ rw (n, run_once, reap_once) (λ row e. cc)
  | inr (r, n) ↦ elim (Result-cases (close_ios_session t.controllers r)) [
    | inr (x, c) ↦ rw (n, run_once, reap_once) (rw c (λ row e. cc))
    | inl (a, c) ↦ elim (Result-cases (release_stf s t.controllers r)) [
      | inr (x, f) ↦ rw (n, run_once, reap_once) (rw c (rw f (λ row e. cc)))
      | inl (b, f) ↦
          rw (n, run_once, reap_once)
            (rw c (
              rw f (λ row e.
                committed-fewer active_rows s (reap_tx t.outside s r.id p.grace_period) {row = row}
                  (reap_tx-fewer t.outside s r.id p.grace_period) e)))
    ]
  ]
]

pending-Falls : (p : Policy) (t : Turn) (s : Store) → Falls pending_rows s (run_pending_once p t s)
unfolding run_pending_once reap_stale_pending_once
pending-Falls p t s = elim (Bool-cases (ltb 0 p.pending_timeout)) [
  | inr n ↦ rw (n, run_pending_once) (λ row e. cc)
  | inl y ↦
      elim (Option-cases
        (find_next_stale_pending s t.asked p.pending_timeout p.pending_claim_grace)) [
          | inl n ↦ rw (y, run_pending_once, reap_stale_pending_once) (rw n (λ row e. cc))
          | inr (r, n) ↦
              rw (y, run_pending_once, reap_stale_pending_once)
                (rw n (λ row e.
                  committed-fewer pending_rows s
                    (reap_stale_tx t.outside s r.id p.pending_timeout p.pending_claim_grace)
                    {row = row}
                    (reap_stale_tx-fewer t.outside s r.id p.pending_timeout p.pending_claim_grace)
                    e))
        ]
]

orphan-Falls :
    (p : Policy) (t : Turn) (s : Store) → Falls pending_rows s (run_orphaned_claim_once p t s)
unfolding run_orphaned_claim_once reap_orphaned_claim_once
orphan-Falls p t s = elim (Bool-cases (ltb 0 p.pending_timeout)) [
  | inr n ↦ rw (n, run_orphaned_claim_once) (λ row e. cc)
  | inl y ↦ elim (Option-cases (find_next_orphaned_claim s t.asked p.pending_claim_grace)) [
    | inl n ↦ rw (y, n, run_orphaned_claim_once, reap_orphaned_claim_once) (λ row e. cc)
    | inr (r, n) ↦
        rw (y, n, run_orphaned_claim_once, reap_orphaned_claim_once)
          (λ row e.
            committed-fewer pending_rows s (reap_orphan_tx t.outside s r.id p.pending_claim_grace)
              {row = row} (reap_orphan_tx-fewer t.outside s r.id p.pending_claim_grace) e)
  ]
]

-- The three loops of the reaper over its own sweeps end with an error, when nothing else runs, and
-- also under a policy without a timeout, for which the two pending sweeps are disabled: the
-- one over expired leases after at most as many successes as there are active reservations, and the
-- two over pending reservations after at most as many as there are pending ones.
pub reaper-HasEnded :
    (p : Policy) (turns : ℕ → Turn) (s : Store)
    → HasEnded (drain (run_once p) turns (suc (active_rows s)) s)
      × HasEnded (drain (run_pending_once p) turns (suc (pending_rows s)) s)
      × HasEnded (drain (run_orphaned_claim_once p) turns (suc (pending_rows s)) s)
reaper-HasEnded p turns s = (
  drain-HasEnded active_rows (run_once p) turns (once-Falls p) (suc (active_rows s)) s
      (omega arith),
  drain-HasEnded pending_rows (run_pending_once p) turns (pending-Falls p) (suc (pending_rows s)) s
      (omega arith),
  drain-HasEnded pending_rows (run_orphaned_claim_once p) turns (orphan-Falls p)
      (suc (pending_rows s)) s (omega arith),
)
