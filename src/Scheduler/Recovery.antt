-- ===== src/Scheduler/Recovery.antt =====
-- What a round of the scheduler that fails leaves with STF (internal/scheduler/scheduler.go).
use alcor_device_farm.Prelude.{
  ◌≡◌, refl, inl, inr, String, List, [], ◌∷◌, ◌++◌, arith, Bool-cases, Option-cases, eq_refl,
  str_eq, if◌then◌else◌,
}
use alcor_device_farm.Failure.{Error, err, Result-cases}
use alcor_device_farm.Store.{Store}
use alcor_device_farm.Scheduler.{
  ClaimCandidate, Outside, StfCall, claims, releases, Round, stf_name, uses_stf, claim_calls,
  release_calls, claim, activate, start, proceed, run_once,
}

-- the names without one
abbrev without : String → List String → List String
without name [] = []
without name (held ∷ names) =
    let rest = without name names in if str_eq held name then rest else held ∷ rest

-- The names that STF granted and that it was not asked to release since, after some calls.
unfoldable pub unreleased : List String → List StfCall → List String
unreleased names [] = names
unreleased names (claims name ∷ calls) = unreleased (name ∷ names) calls
unreleased names (releases name ∷ calls) = unreleased (without name names) calls

-- if the round ends with an error, then STF was asked to release all that it granted
abbrev pub LeavesNone : Round → Type 0
LeavesNone r = (e : Error) → r.result ≡ err e → unreleased [] r.stf ≡ []

given_back :
    (c : ClaimCandidate) (o : Outside) → unreleased [] (claim_calls c o ++ release_calls c o) ≡ []
unfolding unreleased
given_back c o = elim (Bool-cases (uses_stf c o)) [
  | inl u ↦ rw u (rw (eq_refl (stf_name c.device)) refl)
  | inr u ↦ rw u refl
]

start-LeavesNone : (s : Store) (c : ClaimCandidate) (o : Outside) → LeavesNone (start s c o)
unfolding start
start-LeavesNone s c o e h = elim (Option-cases o.session_id) [
  | inl n ↦ rw (n, start) (given_back c o)
  | inr (id, n) ↦ elim (Result-cases (activate s c id o)) [
    | inl (a, f) ↦ absurd (ground (arith, n, f))
    | inr (y, f) ↦ rw (n, f, start) (given_back c o)
  ]
]

proceed-LeavesNone : (s : Store) (c : ClaimCandidate) (o : Outside) → LeavesNone (proceed s c o)
unfolding proceed unreleased
proceed-LeavesNone s c o e h = elim (Bool-cases (uses_stf c o)) [
  | inr u ↦ rw (u, proceed) (start-LeavesNone s c o e (ground (arith, u)))
  | inl u ↦ elim (Option-cases o.claim_failure) [
    | inl f ↦ rw (u, f, proceed) (start-LeavesNone s c o e (ground (arith, u, f)))
    | inr (retryable, f) ↦ rw (u, f, proceed) refl
  ]
]

-- When a round of the scheduler ends with an error, then each device that STF granted in it, by the
-- name that was claimed, was released by a later call with the same name. Whether STF carries out
-- the release is not part of it: the source only logs a release that fails.
pub run_once-stf_released :
    (s : Store) (o : Outside) (e : Error)
    → (run_once s o).result ≡ err e
    → unreleased [] (run_once s o).stf ≡ []
unfolding run_once unreleased
run_once-stf_released s o e h = elim (Result-cases (claim s o)) [
  | inl ((c, t), f) ↦ rw (f, run_once) (proceed-LeavesNone t c o e (ground (arith, f)))
  | inr (y, f) ↦ rw (f, run_once) refl
]
