-- ===== src/Domain/Machine.antt =====
-- internal/domain/state_machine.go: one machine for every resource, generic in its statuses.
-- A status type of the source is a string type with named constants. Here it is a data type with a
-- constructor for each constant and `other` for every other string. A map from a status to the set
-- of its successors is a function into `Option (List S)`, `none` where the key is missing. A time is
-- a number, 0 for Go's zero time. An error is a value, with the texts of the messages left out.
pub mod Laws
pub mod Log
use alcor_device_farm.Prelude.{
  ℕ, ◌≡◌, ◌↔◌, Bool, true, false, String, Option, none, some, List, [], ◌∷◌, ◌++◌, ◌==◌, any, not,
  if◌then◌else◌,
}
use alcor_device_farm.Text.{trim_space, is_empty, is_identifier}

-- `name` is the string of a status, and `same` compares two statuses as the source compares strings.
pub record Status (S : Type 0) : Type 0 where
  pub name : S → String
  pub same : S → S → Bool
  pub same_iff : (a b : S) → (same a b ≡ true) ↔ (a ≡ b)

pub record TransitionEvent : Type 0 where
  pub resource : String
  pub id : String
  pub column : String
  pub from : String
  pub to : String
  pub reason : String
  pub time : ℕ
  pub accepted : Bool
  pub error_code : String

-- TransitionError: what was refused.
pub record TransitionError : Type 0 where
  pub resource : String
  pub id : String
  pub column : String
  pub from : String
  pub to : String

pub data Error : Type 0 where
  invalid_id : String → Error
  invalid_status : String → Error
  invalid_transition : TransitionError → Error
  reason_required time_required device_not_healthy : Error

pub record StateMachine (S : Type 0) : Type 0 where
  pub resource : String
  pub id : String
  pub column : String
  pub status : S
  pub valid : S → Bool
  pub transitions : S → Option (List S)
  pub events : List TransitionEvent

abbrev pub allowed {ℓ} : {S : Type ℓ} → List S → Option (List S)
allowed values = some values

-- `_, ok := transitions[status]`.
abbrev pub has_key {ℓ} : {S : Type ℓ} → (S → Option (List S)) → S → Bool
has_key table s = elim (table s) [ none ↦ false | some _ ↦ true ]

pub data Result (A : Type 0) : Type 0 where
  ok : A → Result A
  err : Error → Result A

module _ {S : Type 0} ⦃st : Status S⦄ where
  -- `_, ok := transitions[from][to]`; a missing row is an empty one.
  abbrev pub permits : (S → Option (List S)) → S → S → Bool
  permits table from to = elim (table from) [
    | none ↦ false
    | some successors ↦ any (st.same to) successors
  ]

  unfoldable pub new_state_machine :
      String → String → String → S → (S → Bool) → (S → Option (List S)) → Result (StateMachine S)
  new_state_machine resource id column status valid transitions =
      if not (is_identifier id)
      then err (invalid_id id)
      else if not (valid status)
      then err (invalid_status (st.name status))
      else ok (record {
        resource = resource;
        id = id;
        column = column;
        status = status;
        valid = valid;
        transitions = transitions;
        events = [];
      })

  unfoldable pub record_rejected : StateMachine S → S → String → ℕ → String → StateMachine S
  record_rejected m to reason time code = record m {
    events =
        m.events
        ++ record {
          resource = m.resource;
          id = m.id;
          column = m.column;
          from = st.name m.status;
          to = st.name to;
          reason = trim_space reason;
          time = time;
          accepted = false;
          error_code = code;
        }
          ∷ [];
  }

  unfoldable pub accept : StateMachine S → S → String → ℕ → StateMachine S
  accept m to reason time = record m {
    status = to;
    events =
        m.events
        ++ record {
          resource = m.resource;
          id = m.id;
          column = m.column;
          from = st.name m.status;
          to = st.name to;
          reason = trim_space reason;
          time = time;
          accepted = true;
          error_code = "";
        }
          ∷ [];
  }

  abbrev pub refusal : StateMachine S → S → TransitionError
  refusal m to = record {
    resource = m.resource;
    id = m.id;
    column = m.column;
    from = st.name m.status;
    to = st.name to;
  }

  -- The machine after the call, and the error if there is one.
  unfoldable pub transition : StateMachine S → S → String → ℕ → StateMachine S × Option Error
  unfolding record_rejected accept
  transition m to reason time =
      if not (m.valid to)
      then (m, some (invalid_status (st.name to)))
      else if is_empty (trim_space reason)
      then (m, some reason_required)
      else if time == 0
      then (m, some time_required)
      else if not (permits m.transitions m.status to)
      then (
        record_rejected m to reason time "INVALID_STATE_TRANSITION",
        some (invalid_transition (refusal m to)),
      )
      else (accept m to reason time, none)

  abbrev pub clear_events : StateMachine S → StateMachine S
  clear_events m = record m { events = [] }
