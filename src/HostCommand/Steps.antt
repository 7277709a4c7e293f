-- ===== src/HostCommand/Steps.antt =====
-- The transactions on the commands of the hosts, in any order: creations by any service, and the
-- calls of internal/hostcommand/service.go. A transaction that fails is rolled back. The mark that the
-- warm pool sets in a payload is not among them; HostCommand.Marks adds it.
use alcor_device_farm.Prelude.{
  ℕ, ◌≡◌, refl, inl, inr, Bool, true, String, List, [], ◌∷◌, arith, str_eq-cases,
}
use alcor_device_farm.Failure.{
  Result, ok, err, OnOk, OnOk-ok, >>=-OnOk, >>-OnOk, guard-ok, OnOk-err, ◌>>=◌,
}
use alcor_device_farm.Json.{Fields}
use alcor_device_farm.HostCommand.Table.{CommandRow, CreateCommandParams, create, claim_next}
use alcor_device_farm.HostCommand.Moves.{is_outcome}
use alcor_device_farm.HostCommand.Service.{
  Outside, Reconcile, CompletionInput, create_command, create_all, reconciled, complete_command,
  extend_command, recover_expired_once, command_status_of, valid_completion, translated, recovery,
}
use alcor_device_farm.HostCommand.Implements.{
  Implements, Implements-refl, Implements-trans, IsKeyed, create-Implements, claim_next-Implements,
  recover-Implements, complete-Implements, extend_lease-Implements,
}

pub data Step : Type 0 where
  creates : (String → Bool) → CreateCommandParams → ℕ → Step
  creates_command : Outside → String → String → Fields → ℕ → String → Step
  claims : (String → Bool) → String → String → ℕ → ℕ → Step
  completes : Outside → Reconcile → String → CompletionInput → Step
  extends : Outside → String → String → ℕ → ℕ → Step
  recovers : Outside → Reconcile → (String → Bool) → Step

-- what a transaction returns, with the rows that it leaves if it succeeds
unfoldable pub outcome : List CommandRow → Step → Result (CommandRow × List CommandRow)
outcome rows (creates hosts p clock) = create hosts rows p clock
outcome rows (creates_command o host type payload max_attempts key) =
    create_command o rows host type payload max_attempts key
outcome rows (claims locked host token lease clock) = claim_next rows locked host token lease clock
outcome rows (completes o reconcile id input) = complete_command o reconcile rows id input
outcome rows (extends o id token attempt seconds) = extend_command o rows id token attempt seconds
outcome rows (recovers o reconcile locked) = recover_expired_once o reconcile locked rows

unfoldable pub left : List CommandRow → Result (CommandRow × List CommandRow) → List CommandRow
left rows (ok (r, t)) = t
left rows (err e) = rows

unfoldable pub run : List CommandRow → List Step → List CommandRow
unfolding outcome left
run rows [] = rows
run rows (x ∷ xs) = run (left rows (outcome rows x)) xs

left-Implements :
    (rows : List CommandRow) (r : Result (CommandRow × List CommandRow))
    → OnOk (λ t. Implements rows t.1) r
    → Implements rows (left rows r)
unfolding left
left-Implements rows (ok t) h = h.apply t refl
left-Implements rows (err e) h = Implements-refl rows

-- A change of the error keeps what holds of a success.
pub translated-OnOk :
    {A : Type 0} (P : A → Type 0) (r : Result A) → OnOk P r → OnOk P (translated r)
translated-OnOk P (ok a) h = h
translated-OnOk P (err e) h = OnOk-err _

pub recovery-OnOk : {A : Type 0} (P : A → Type 0) (r : Result A) → OnOk P r → OnOk P (recovery r)
recovery-OnOk P (ok a) h = h
recovery-OnOk P (err e) h = OnOk-err _

pub create_all-Implements :
    (hosts : String → Bool) (rows : List CommandRow) (ps : List CreateCommandParams) (clock : ℕ)
    → OnOk (Implements rows) (create_all hosts rows ps clock)
unfolding create_all
create_all-Implements hosts rows [] clock = OnOk-ok _ (Implements-refl rows)
create_all-Implements hosts rows (p ∷ ps) clock = >>=-OnOk λ t e. record {
  apply = λ u f.
      Implements-trans rows t.1 u ((create-Implements hosts rows p clock).apply t e)
        ((create_all-Implements hosts t.1 ps clock).apply u f);
}

-- what follows a changed command in its transaction
pub reconciled-Implements :
    (o : Outside) (reconcile : Reconcile) (rows : List CommandRow)
    (m : Result (CommandRow × List CommandRow))
    → OnOk (λ t. Implements rows t.1) m
    → OnOk (λ t. Implements rows t.1) (m >>= reconciled o reconcile)
unfolding reconciled
reconciled-Implements o reconcile rows m h = >>=-OnOk λ t e. >>=-OnOk λ created _. >>=-OnOk λ u f.
    OnOk-ok _ (
      Implements-trans rows t.1 u (h.apply t e)
        ((create_all-Implements o.hosts t.1 created o.clock).apply u f))

-- a completion that passes the validation reports an outcome
pub completion-outcome :
    (id : String) (input : CompletionInput)
    → valid_completion id input ≡ true
    → is_outcome (command_status_of input.status) ≡ true
completion-outcome id input h = elim (str_eq-cases input.status "succeeded") [
  | inl (e, y) ↦ rw e refl
  | inr (e, n) ↦ elim (str_eq-cases input.status "failed") [
    | inl (f, y) ↦ rw f refl
    | inr (f, m) ↦ elim (str_eq-cases input.status "timed_out") [
      | inl (g, y) ↦ rw g refl
      | inr (g, l) ↦ absurd (ground (arith, h))
    ]
  ]
]

outcome-Implements :
    (rows : List CommandRow) (x : Step)
    → IsKeyed rows
    → OnOk (λ t. Implements rows t.1) (outcome rows x)
unfolding outcome create_command complete_command extend_command recover_expired_once
outcome-Implements rows (creates hosts p clock) k = create-Implements hosts rows p clock
outcome-Implements rows (creates_command o host type payload max_attempts key) k =
    >>-OnOk λ _. >>=-OnOk λ id _. translated-OnOk _ _ (create-Implements o.hosts rows _ o.clock)
outcome-Implements rows (claims locked host token lease clock) k =
    claim_next-Implements rows locked host token lease clock k
outcome-Implements rows (completes o reconcile id input) k = >>-OnOk λ v. >>=-OnOk λ _ _.
    >>=-OnOk λ _ _. >>=-OnOk λ _ _. translated-OnOk _ _ (
      reconciled-Implements o reconcile rows _
        (complete-Implements rows id _ _ _ _ _ _ _ (completion-outcome id input (guard-ok _ _ v))))
outcome-Implements rows (extends o id token attempt seconds) k =
    >>-OnOk λ _. translated-OnOk _ _ (extend_lease-Implements rows id _ _ _ _)
outcome-Implements rows (recovers o reconcile locked) k =
    recovery-OnOk _ _
      (reconciled-Implements o reconcile rows _ (recover-Implements rows locked o.clock k))

-- Whatever calls of internal/hostcommand and creations follow each other, in whatever order, on a table
-- in which no id is twice: no row is lost, each row has made moves of a command and no other change,
-- each new row was created and has made moves since, and no id is twice.
pub run-Implements :
    (rows : List CommandRow) (xs : List Step) → IsKeyed rows → Implements rows (run rows xs)
unfolding run
run-Implements rows [] k = Implements-refl rows
run-Implements rows (x ∷ xs) k =
    let one = left-Implements rows (outcome rows x) (outcome-Implements rows x k) in
    Implements-trans rows _ _ one
      (run-Implements (left rows (outcome rows x)) xs (λ id. one.keyed id (k id)))
