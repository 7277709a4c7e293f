-- ===== src/HostCommand/Fencing.antt =====
-- A lease that was used up is refused for ever (internal/repository/command.go, Complete and
-- ExtendLease; internal/hostcommand/service.go).
use alcor_device_farm.Prelude.{
  ℕ, ◌*◌, ◌≤◌, ◌≡◌, ◌≢◌, refl, subst, inl, inr, Bool, true, ◌&&◌, ◌||◌, not, String, Option, some,
  List, arith, Option-cases, ltb, ◌==◌,
}
use alcor_device_farm.Failure.{
  ok, err, OnOk, OnOk-ok, OnOk-err, >>=-OnOk, >>-OnOk, guard-ok, lease_conflict,
}
use alcor_device_farm.Json.{Json}
use alcor_device_farm.Domain.Command.{CommandStatus}
use alcor_device_farm.Store.Rows.{find_row, find_row-passes, count-update_same}
use alcor_device_farm.Store.Lookup.{both-found, update-found}
use alcor_device_farm.Repository.Writes.{update_returning, update_returning-ok}
use alcor_device_farm.HostCommand.Table.{
  CommandRow, has_id, is_leased, is_held, complete, completed_row, extend_lease, extended_row,
}
use alcor_device_farm.HostCommand.Moves.{Move, outcome_not_leased, Moves-keep, is_outcome}
use alcor_device_farm.HostCommand.Implements.{Implements, IsKeyed}
use alcor_device_farm.HostCommand.Service.{
  Outside, Reconcile, CompletionInput, complete_command, extend_command, reconciled,
}
use alcor_device_farm.HostCommand.Steps.{
  Step, run, run-Implements, translated-OnOk, create_all-Implements, completion-outcome,
}

-- The attempt holds no lease any more.
pub is_spent : ℕ → CommandRow → Bool
is_spent n r = ltb n r.attempts || (n == r.attempts && not (is_leased r))

Move-spent : (n : ℕ) (r s : CommandRow) → Move r s → is_spent n r ≡ true → is_spent n s ≡ true
unfolding is_spent
Move-spent n r s (Move.claim _ token lease clock h k) e = ground (arith, e)
Move-spent n r s (Move.complete _ token attempt status result code retryable clock h k) e =
    ground (arith, e, h)
Move-spent n r s (Move.extend _ token attempt lease clock h) e = ground (arith, e, h)
Move-spent n r s (Move.recover _ clock h) e = ground (arith, e, h)

-- an update of the row with the id whose attempt holds the lease
spent-refused :
    (f : CommandRow → CommandRow) (rows : List CommandRow) (id token : String) (n attempt clock : ℕ)
    {q : CommandRow}
    → IsKeyed rows
    → find_row (has_id id) rows ≡ some q
    → is_spent n q ≡ true
    → attempt ≤ n
    → update_returning (λ r. has_id id r && is_held token attempt clock r) f rows lease_conflict
      ≡ err lease_conflict
unfolding is_spent update_returning
spent-refused f rows id token n attempt clock {q} k e spent le =
    elim (Option-cases (find_row (λ r. has_id id r && is_held token attempt clock r) rows)) [
      | inl g ↦ rw (g, update_returning) refl
      | inr (r, g) ↦
          let held = find_row-passes (λ r. has_id id r && is_held token attempt clock r) rows g in
          let alone = both-found (has_id id) (is_held token attempt clock) rows (k id) g in
          let same : q ≡ r = cc in
          let spent_r = subst (λ x. is_spent n x ≡ true) same spent in
          absurd (ground (arith, held, spent_r))
    ]

-- The command is there, the attempt is spent, and no id is twice.
pub record HasSpent (id : String) (n : ℕ) (rows : List CommandRow) : Type 0 where
  pub keyed : IsKeyed rows
  pub row : CommandRow
  pub found : find_row (has_id id) rows ≡ some row
  pub spent : is_spent n row ≡ true

Implements-HasSpent :
    (id : String) (n : ℕ) (s t : List CommandRow)
    → Implements s t
    → HasSpent id n s
    → HasSpent id n t
Implements-HasSpent id n s t a h =
    let (q, f, m) = a.kept id h.row h.found in
    record {
      keyed = λ i. a.keyed i (h.keyed i);
      row = q;
      found = f;
      spent = Moves-keep (λ r. is_spent n r ≡ true) (λ r u x. Move-spent n r u x) m h.spent;
    }

complete-HasSpent :
    (rows : List CommandRow) (id token : String) (attempt : ℕ) (status : CommandStatus)
    (result : Json) (code : Option String) (retryable : Bool) (clock : ℕ)
    → IsKeyed rows
    → is_outcome status ≡ true
    → OnOk
        (λ t. HasSpent id attempt t.1)
        (complete rows id token attempt status result code retryable clock)
unfolding complete is_spent
complete-HasSpent rows id token attempt status result code retryable clock k o = record {
  apply = λ t e.
      let test : CommandRow → Bool = λ r. has_id id r && is_held token attempt clock r in
      let change : CommandRow → CommandRow = completed_row status result code retryable clock in
      let (r, f, out) = update_returning-ok test change rows lease_conflict e in
      let held = find_row-passes test rows f in
      let g = both-found (has_id id) (is_held token attempt clock) rows (k id) f in
      rw out (record {
        keyed =
            λ i. omega (arith, count-update_same test (has_id i) change rows (λ x u. refl), k i);
        row = change r;
        found = rw (update-found (has_id id) test change (λ x u. refl) rows g) (rw held refl);
        spent = ground (arith, held, outcome_not_leased status o);
      });
}

abbrev Never : {A : Type 0} → A → Type 0
Never a = ⊥

module _ (id : String) (n : ℕ) (rows : List CommandRow) (h : HasSpent id n rows) where
  complete-Never :
      (token : String) (attempt : ℕ) (status : CommandStatus) (result : Json) (code : Option String)
      (retryable : Bool) (clock : ℕ)
      → attempt ≤ n
      → OnOk Never (complete rows id token attempt status result code retryable clock)
  unfolding complete
  complete-Never token attempt status result code retryable clock le =
      rw
        (spent-refused (completed_row status result code retryable clock) rows id token n attempt
          clock h.keyed h.found h.spent le)
        (OnOk-err _)

  complete_command-Never :
      (p : Outside) (reconcile : Reconcile) (late : CompletionInput)
      → late.attempt ≤ n
      → OnOk Never (complete_command p reconcile rows id late)
  unfolding complete_command
  complete_command-Never p reconcile late le = >>-OnOk λ v. >>=-OnOk λ _ _. >>=-OnOk λ _ _.
      >>=-OnOk λ _ _. translated-OnOk _ _ (
        >>=-OnOk λ t e.
          absurd ((complete-Never late.lease_token late.attempt _ _ _ _ p.clock le).apply t e))

  extend_command-Never :
      (p : Outside) (token : String) (attempt seconds : ℕ)
      → attempt ≤ n
      → OnOk Never (extend_command p rows id token attempt seconds)
  unfolding extend_command extend_lease
  extend_command-Never p token attempt seconds le = >>-OnOk λ _. translated-OnOk _ _ (
      rw
        (spent-refused (extended_row (1000 * seconds) p.clock) rows id token n attempt p.clock
          h.keyed h.found h.spent le)
        (OnOk-err _))

complete_command-HasSpent :
    (o : Outside) (reconcile : Reconcile) (rows : List CommandRow) (id : String)
    (input : CompletionInput)
    → IsKeyed rows
    → OnOk (λ t. HasSpent id input.attempt t.1) (complete_command o reconcile rows id input)
unfolding complete_command reconciled
complete_command-HasSpent o reconcile rows id input k = >>-OnOk λ v. >>=-OnOk λ _ _. >>=-OnOk λ _ _.
    >>=-OnOk λ _ _. translated-OnOk _ _ (
      >>=-OnOk λ t e. >>=-OnOk λ created _. >>=-OnOk λ u f. OnOk-ok _ (
        Implements-HasSpent id input.attempt t.1 u
          ((create_all-Implements o.hosts t.1 created o.clock).apply u f)
          ((complete-HasSpent rows id _ _ _ _ _ _ _ k
              (completion-outcome id input (guard-ok _ _ v))).apply
            t e)))

-- After a completion was accepted for an attempt at a command, on a table in which no id is twice,
-- whatever transactions follow, in whatever order: no completion and no extension for this attempt
-- or an earlier one is accepted, with any token and at any time.
pub complete_command-fenced :
    (o p : Outside) (reconcile again : Reconcile) (rows : List CommandRow) (id : String)
    (input late : CompletionInput) (xs : List Step) (token : String) (seconds : ℕ)
    {t u : CommandRow × List CommandRow}
    → IsKeyed rows
    → complete_command o reconcile rows id input ≡ ok t
    → late.attempt ≤ input.attempt
    → (complete_command p again (run t.1 xs) id late ≢ ok u)
      × (extend_command p (run t.1 xs) id token late.attempt seconds ≢ ok u)
complete_command-fenced o p reconcile again rows id input late xs token seconds {t} {u} k e le =
    let spent = (complete_command-HasSpent o reconcile rows id input k).apply t e in
    let later =
      Implements-HasSpent id input.attempt t.1 (run t.1 xs) (run-Implements t.1 xs spent.keyed)
        spent in
    (
      (complete_command-Never id input.attempt _ later p again late le).apply u,
      (extend_command-Never id input.attempt _ later p token late.attempt seconds le).apply u,
    )
