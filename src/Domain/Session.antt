-- ===== src/Domain/Session.antt =====
-- internal/domain/session.go: the statuses of a device session and the entity over the machine.
use alcor_device_farm.Prelude.{
  ℕ, ◌≡◌, ◌↔◌, Bool, true, false, String, Option, none, List, [], ◌∷◌, arith, str_eq, eq_iff,
}
use alcor_device_farm.Domain.Machine.{
  Status, StateMachine, Error, Result, ok, err, allowed, has_key, new_state_machine, transition,
}

pub data SessionStatus : Type 0 where
  starting active closing closed failed : SessionStatus
  other : String → SessionStatus

-- The string of a status.
abbrev pub session_name : SessionStatus → String
session_name starting = "starting"
session_name active = "active"
session_name closing = "closing"
session_name closed = "closed"
session_name failed = "failed"
session_name (other s) = s

abbrev pub session_same : SessionStatus → SessionStatus → Bool
session_same starting starting = true
session_same active active = true
session_same closing closing = true
session_same closed closed = true
session_same failed failed = true
session_same (other s) (other t) = str_eq s t
session_same _ _ = false

pub session_same_iff : (a b : SessionStatus) → (session_same a b ≡ true) ↔ (a ≡ b)
session_same_iff (other s) (other t) = ground (arith, eq_iff s t)
session_same_iff _ _ = ground arith

instance abbrev pub session_status : Status SessionStatus
session_status = record { name = session_name; same = session_same; same_iff = session_same_iff }

abbrev pub session_transitions : SessionStatus → Option (List SessionStatus)
session_transitions starting = allowed (active ∷ failed ∷ [])
session_transitions active = allowed (closing ∷ failed ∷ [])
session_transitions closing = allowed (closed ∷ failed ∷ [])
session_transitions closed = allowed ([])
session_transitions failed = allowed ([])
session_transitions (other s) = none

unfoldable pub valid_session : SessionStatus → Bool
valid_session status = has_key session_transitions status

pub record Session : Type 0 where
  pub state : StateMachine SessionStatus

unfoldable pub restore_session : String → SessionStatus → Result Session
unfolding valid_session new_state_machine
restore_session id status =
    elim (new_state_machine "device_session" id "status" status valid_session session_transitions) [
      | ok m ↦ ok (record { state = m })
      | err e ↦ err e
    ]

pub new_session : String → Result Session
unfolding restore_session
new_session id = restore_session id starting

unfoldable pub transition_session : Session → SessionStatus → String → ℕ → Session × Option Error
unfolding transition
transition_session r to reason time =
    let (m, e) = transition r.state to reason time in (record { state = m }, e)
