-- ===== src/HostCommand/Tests.antt =====
-- The theorems on the commands of the hosts at concrete tables.
use alcor_device_farm.Prelude.{
  ℕ, suc, ◌≡◌, ◌≢◌, refl, true, false, none, some, List, [], ◌∷◌, arith, ◌==◌,
}
use alcor_device_farm.Text.{is_identifier, size, trim_space}
use alcor_device_farm.Failure.{ok, ◌>>=◌, guard, checked, from_domain}
use alcor_device_farm.Json.{Json, Fields, json_equal}
use alcor_device_farm.Sensitive.{redact_map}
use alcor_device_farm.Domain.Machine.{new_state_machine, transition, accept}
use alcor_device_farm.Domain.Command.{
  CommandStatus, restore_command, transition_command, valid_command,
}
use alcor_device_farm.Store.Rows.{count, find_row, least, select, update_where}
use alcor_device_farm.Repository.Writes.{update_returning}
use alcor_device_farm.HostCommand.Table.{
  CreateCommandParams, CommandRow, new_row, has_id, create, claim_next, complete, leased_row,
  completed_row, passes_checks, next_claimable, same_command_request,
}
use alcor_device_farm.HostCommand.Moves.{WellFormed}
use alcor_device_farm.HostCommand.Service.{
  Outside, CompletionInput, Reconcile, Turn, complete_command, extend_command, run_lease_recovery,
  reconciled, create_all, completion_code,
}
use alcor_device_farm.HostCommand.Polling.{ClaimInput, Round, claim_commands}
use alcor_device_farm.HostCommand.Implements.{Implements, IsKeyed}
use alcor_device_farm.HostCommand.Steps.{Step, outcome, left, run, run-Implements}
use alcor_device_farm.HostCommand.Lifetime.{run-WellFormed}
use alcor_device_farm.HostCommand.Marks.{Write, run_writes, IsSettled, run_writes-IsSettled}
use alcor_device_farm.HostCommand.Fencing.{complete_command-fenced}
use alcor_device_farm.HostCommand.Queue.{IsServed, claim_next-IsServed}
use alcor_device_farm.HostCommand.Waiting.{HasAnswered, claim_commands-HasAnswered}
use alcor_device_farm.HostCommand.Recovery.{leases, HasEnded, run_lease_recovery-HasEnded}

abbrev request : CreateCommandParams
request = record {
  id = "command_00000001";
  host_id = "host_000000000001";
  command_type = "start";
  payload = Json.object Fields.end;
  max_attempts = 3;
  idempotency_key = "key_00000001";
}

abbrev waiting : List CommandRow
waiting = new_row request 10 ∷ []

abbrev leased : List CommandRow
leased = leased_row "token_0000000001" 60000 20 (new_row request 10) ∷ []

abbrev done : CommandRow
done =
    completed_row CommandStatus.succeeded (Json.object Fields.end) none false 30
      (leased_row "token_0000000001" 60000 20 (new_row request 10))

abbrev around : Outside
around = record {
  lower = λ s. s;
  redact_text = λ s. s;
  hosts = λ id. true;
  new_id = some "command_00000002";
  clock = 30;
  now = 30;
}

abbrev nothing_more : Reconcile
nothing_more = λ c. ok ([])

abbrev success : CompletionInput
success = record {
  lease_token = "token_0000000001";
  attempt = 1;
  status = "succeeded";
  result = Fields.end;
  error = none;
}

abbrev some_steps : List Step
some_steps =
    Step.claims (λ id. false) "host_000000000001" "token_0000000002" 60000 40
    ∷ Step.recovers around nothing_more (λ id. false)
    ∷ Step.extends around "command_00000001" "token_0000000001" 1 60
    ∷ []

waiting-IsKeyed : IsKeyed waiting
unfolding count
waiting-IsKeyed id = ground arith

leased-IsKeyed : IsKeyed leased
unfolding count
leased-IsKeyed id = ground arith

done-IsKeyed : IsKeyed (done ∷ [])
unfolding count
done-IsKeyed id = ground arith

run-Implements_example : Implements waiting (run waiting some_steps)
run-Implements_example = run-Implements waiting some_steps waiting-IsKeyed

abbrev a_life : List Step
a_life =
    Step.creates (λ id. true) request 10
    ∷ Step.claims (λ id. false) "host_000000000001" "token_0000000001" 60000 20
    ∷ []

leased-found :
    find_row (has_id "command_00000001") (run [] a_life)
    ≡ some (leased_row "token_0000000001" 60000 20 (new_row request 10))
unfolding run outcome left create claim_next passes_checks next_claimable is_identifier find_row
    update_returning select least json_equal update_where same_command_request guard ◌>>=◌
leased-found = refl

run-WellFormed_example : WellFormed (leased_row "token_0000000001" 60000 20 (new_row request 10))
run-WellFormed_example = run-WellFormed a_life "command_00000001" leased-found

completed :
    complete_command around nothing_more leased "command_00000001" success ≡ ok (done, done ∷ [])
unfolding complete_command complete is_identifier restore_command transition_command
    new_state_machine transition accept completion_code reconciled create_all trim_space
    update_returning update_where find_row guard checked from_domain redact_map size valid_command
    count ◌>>=◌
completed = refl

complete_command-fenced_example :
    (complete_command around nothing_more (run (done ∷ []) some_steps) "command_00000001" success
      ≢ ok (done, []))
    × (extend_command around (run (done ∷ []) some_steps) "command_00000001" "token_0000000001" 1 60
        ≢ ok (done, []))
complete_command-fenced_example =
    complete_command-fenced around around nothing_more nothing_more leased "command_00000001"
      success success some_steps "token_0000000001" 60 leased-IsKeyed completed (omega arith)

done-found : find_row (has_id "command_00000001") (done ∷ []) ≡ some done
unfolding find_row
done-found = refl

abbrev some_writes : List Write
some_writes =
    Write.marks "command_00000001" 70
    ∷ Write.calls (Step.recovers around nothing_more (λ id. false))
    ∷ []

run_writes-IsSettled_example :
    (q : CommandRow) × (find_row (has_id "command_00000001") (run_writes (done ∷ []) some_writes)
      ≡ some q)
    × IsSettled done q
run_writes-IsSettled_example =
    run_writes-IsSettled (done ∷ []) some_writes "command_00000001" done-IsKeyed done-found refl

claim_next-IsServed_example :
    IsServed waiting
      (λ id. false)
      "host_000000000001"
      "token_0000000001"
      60000
      20
      (claim_next waiting (λ id. false) "host_000000000001" "token_0000000001" 60000 20)
claim_next-IsServed_example =
    claim_next-IsServed waiting (λ id. false) "host_000000000001" "token_0000000001" 60000 20
      waiting-IsKeyed

abbrev poll : ClaimInput
poll = record { lease_seconds = 60; max_commands = 5; wait_seconds = 10 }

-- the first round, which has the highest number, is in time and the second one is not
abbrev a_round : ℕ → Round
a_round n = record {
  token = λ i. some "token_0000000001";
  clock = λ i. 20;
  locked = λ i id. n == 1;
  late = n == 0;
  done = false;
  others = λ rows. rows;
}

claim_commands-HasAnswered_example :
    HasAnswered "host_000000000001" 5 (claim_commands a_round "host_000000000001" poll 2 waiting)
claim_commands-HasAnswered_example =
    claim_commands-HasAnswered a_round "host_000000000001" poll 0 2 waiting (λ j t k. k)
      waiting-IsKeyed (omega arith) refl

abbrev a_turn : ℕ → Turn
a_turn n = record {
  outside = record around { clock = 100000000 };
  reconcile = nothing_more;
  locked = λ id. false;
}

run_lease_recovery-HasEnded_example :
    HasEnded (run_lease_recovery a_turn (suc (leases leased)) leased)
run_lease_recovery-HasEnded_example = run_lease_recovery-HasEnded a_turn leased leased-IsKeyed
