-- ===== src/Domain/Command.antt =====
-- internal/domain/command.go: the statuses of a host command and the entity over the machine.
use alcor_device_farm.Prelude.{
  ℕ, ◌≡◌, ◌↔◌, Bool, true, false, String, Option, none, List, [], ◌∷◌, arith, str_eq, eq_iff,
}
use alcor_device_farm.Domain.Machine.{
  Status, StateMachine, Error, Result, ok, err, allowed, has_key, new_state_machine, transition,
}

pub data CommandStatus : Type 0 where
  pending leased succeeded failed timed_out canceled : CommandStatus
  other : String → CommandStatus

-- The string of a status.
abbrev pub command_name : CommandStatus → String
command_name pending = "pending"
command_name leased = "leased"
command_name succeeded = "succeeded"
command_name failed = "failed"
command_name timed_out = "timed_out"
command_name canceled = "canceled"
command_name (other s) = s

abbrev pub command_same : CommandStatus → CommandStatus → Bool
command_same pending pending = true
command_same leased leased = true
command_same succeeded succeeded = true
command_same failed failed = true
command_same timed_out timed_out = true
command_same canceled canceled = true
command_same (other s) (other t) = str_eq s t
command_same _ _ = false

pub command_same_iff : (a b : CommandStatus) → (command_same a b ≡ true) ↔ (a ≡ b)
command_same_iff (other s) (other t) = ground (arith, eq_iff s t)
command_same_iff _ _ = ground arith

instance abbrev pub command_status : Status CommandStatus
command_status = record { name = command_name; same = command_same; same_iff = command_same_iff }

abbrev pub command_transitions : CommandStatus → Option (List CommandStatus)
command_transitions pending = allowed (leased ∷ canceled ∷ [])
command_transitions leased = allowed (pending ∷ succeeded ∷ failed ∷ timed_out ∷ canceled ∷ [])
command_transitions succeeded = allowed ([])
command_transitions failed = allowed ([])
command_transitions timed_out = allowed ([])
command_transitions canceled = allowed ([])
command_transitions (other s) = none

unfoldable pub valid_command : CommandStatus → Bool
valid_command status = has_key command_transitions status

pub record Command : Type 0 where
  pub state : StateMachine CommandStatus

unfoldable pub restore_command : String → CommandStatus → Result Command
unfolding valid_command new_state_machine
restore_command id status =
    elim (new_state_machine "device_host_command" id "status" status valid_command
      command_transitions) [ ok m ↦ ok (record { state = m }) | err e ↦ err e ]

unfoldable pub transition_command : Command → CommandStatus → String → ℕ → Command × Option Error
unfolding transition
transition_command r to reason time =
    let (m, e) = transition r.state to reason time in (record { state = m }, e)
