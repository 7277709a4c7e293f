-- ===== src/HostCommand/Service.antt =====
-- internal/hostcommand/service.go: the calls on commands. Each returns its result and the rows that
-- are left; a transaction that fails is rolled back.
use alcor_device_farm.Prelude.{
  ℕ, zero, suc, ◌*◌, Bool, true, false, ◌&&◌, ◌||◌, String, Option, none, some, List, [], ◌∷◌,
  str_eq, leb, ◌==◌, any, if◌then◌else◌,
}
use Prim.Native.Char.{code}
use alcor_device_farm.Text.{trim_space, is_empty, size, count}
use alcor_device_farm.Failure.{
  Error, Result, ok, err, ◌>>=◌, ◌>>◌, guard, require, checked, from_domain, not_found, conflict,
  invalid_argument, no_id, no_command,
}
use alcor_device_farm.Json.{Json, Fields}
use alcor_device_farm.Sensitive.{redact_map}
use alcor_device_farm.Domain.Command.{
  CommandStatus, command_same, restore_command, transition_command,
}
use alcor_device_farm.HostCommand.Table.{
  CommandRow, CreateCommandParams, create, complete, extend_lease, recover_expired_lease,
}

-- a string as a domain.CommandStatus
abbrev pub command_status_of : String → CommandStatus
command_status_of s =
    if str_eq s "pending"
    then CommandStatus.pending
    else if str_eq s "leased"
    then CommandStatus.leased
    else if str_eq s "succeeded"
    then CommandStatus.succeeded
    else if str_eq s "failed"
    then CommandStatus.failed
    else if str_eq s "timed_out"
    then CommandStatus.timed_out
    else if str_eq s "canceled"
    then CommandStatus.canceled
    else CommandStatus.other s

-- validCommandType
abbrev valid_types : List String
valid_types =
    "create" ∷ "start" ∷ "stop" ∷ "restart" ∷ "rebuild" ∷ "delete" ∷ "inspect" ∷ "validate_image"
    ∷ "sync_android_catalog" ∷ "prepare_android_image" ∷ []

unfoldable pub valid_command_type : String → Bool
valid_command_type value = any (str_eq value) valid_types

-- translate
abbrev translate : Error → Error
translate Error.not_found = not_found
translate Error.idempotency_conflict = conflict
translate Error.lease_conflict = conflict
translate e = e

abbrev pub translated : {A : Type 0} → Result A → Result A
translated (ok a) = ok a
translated (err e) = err (translate e)

-- What a call takes from outside: strings.ToLower and package regexp (the module Sensitive), the
-- rows of device_hosts, the new id if the generator gave one, the clock of the database and Go's.
pub record Outside : Type 0 where
  pub lower : String → String
  pub redact_text : String → String
  pub hosts : String → Bool
  pub new_id : Option String
  pub clock : ℕ
  pub now : ℕ

-- Create
unfoldable pub create_command :
    Outside
    → List CommandRow
    → String
    → String
    → Fields
    → ℕ
    → String
    → Result (CommandRow × List CommandRow)
unfolding valid_command_type
create_command o rows host type payload max_attempts key = do
  guard (leb 16 (size host) && valid_command_type type && leb 1 max_attempts && leb 8 (size key))
      invalid_argument
  id ← require o.new_id no_id
  translated (
      create o.hosts rows
        (record {
          id = id;
          host_id = host;
          command_type = type;
          payload = Json.object (redact_map o.lower o.redact_text payload);
          max_attempts = max_attempts;
          idempotency_key = key;
        })
        o.clock)

-- [A-Z0-9_]
is_code_char : ℕ → Bool
is_code_char c = (leb b'A' c && leb c b'Z') || (leb b'0' c && leb c b'9') || c == b'_'

all_code_chars : String → Bool
unfolding is_code_char
all_code_chars String.[] = true
all_code_chars (String.◌∷◌ c s) = is_code_char (code c) && all_code_chars s

-- ^[A-Z][A-Z0-9_]{2,63}$
unfoldable pub is_error_code : String → Bool
unfolding all_code_chars
is_error_code String.[] = false
is_error_code (String.◌∷◌ c s) =
    leb b'A' (code c)
    && leb (code c) b'Z'
    && leb 2 (count s)
    && leb (count s) 63
    && all_code_chars s

-- CompletionError, of which the message and the details are not read
pub record CompletionError : Type 0 where
  pub code : String
  pub retryable : Bool

pub record CompletionInput : Type 0 where
  pub lease_token : String
  pub attempt : ℕ
  pub status : String
  pub result : Fields
  pub error : Option CompletionError

abbrev is_retryable : Option CompletionError → Bool
is_retryable none = false
is_retryable (some e) = e.retryable

-- the status that the domain is asked for
abbrev completion_target : CompletionInput → CommandStatus
completion_target input =
    let target = command_status_of input.status in
    if command_same target CommandStatus.failed && is_retryable input.error
    then CommandStatus.pending
    else target

-- the error code that is stored
unfoldable pub completion_code : Option CompletionError → Result (Option String)
completion_code none = ok none
completion_code (some e) =
    if is_empty (trim_space e.code)
    then ok none
    else if is_error_code (trim_space e.code)
    then ok (some (trim_space e.code))
    else err invalid_argument

-- The rest of a transaction that changed a command, reconcileManagementOperation: an error, or the
-- commands that it creates.
abbrev pub Reconcile : Type 0
Reconcile = CommandRow → Result (List CreateCommandParams)

unfoldable pub create_all :
    (String → Bool) → List CommandRow → List CreateCommandParams → ℕ → Result (List CommandRow)
create_all hosts rows [] clock = ok rows
create_all hosts rows (p ∷ ps) clock = do
  (r, next) ← create hosts rows p clock
  create_all hosts next ps clock

unfoldable pub reconciled :
    Outside → Reconcile → CommandRow × List CommandRow → Result (CommandRow × List CommandRow)
unfolding create_all
reconciled o reconcile (r, rows) = do
  created ← reconcile r
  left ← create_all o.hosts rows created o.clock
  ok (r, left)

abbrev pub valid_completion : String → CompletionInput → Bool
valid_completion id input =
    leb 16 (size id)
    && leb 16 (size input.lease_token)
    && leb 1 input.attempt
    && (str_eq input.status "succeeded"
        || str_eq input.status "failed"
        || str_eq input.status "timed_out")

-- Complete
unfoldable pub complete_command :
    Outside
    → Reconcile
    → List CommandRow
    → String
    → CompletionInput
    → Result (CommandRow × List CommandRow)
unfolding completion_code reconciled
complete_command o reconcile rows id input = do
  guard (valid_completion id input) invalid_argument
  state ← from_domain (restore_command id CommandStatus.leased)
  moved ←
      checked (transition_command state (completion_target input) "agent command completion" o.now)
  code ← completion_code input.error
  translated (do
    done ←
        complete rows id input.lease_token input.attempt (command_status_of input.status)
          (Json.object (redact_map o.lower o.redact_text input.result)) code
          (is_retryable input.error) o.clock
    reconciled o reconcile done)

-- Extend
unfoldable pub extend_command :
    Outside → List CommandRow → String → String → ℕ → ℕ → Result (CommandRow × List CommandRow)
extend_command o rows id token attempt seconds = do
  guard
      (leb 16 (size id) && leb 16 (size token) && leb 1 attempt && leb 5 seconds && leb seconds 300)
      invalid_argument
  translated (extend_lease rows id token attempt (1000 * seconds) o.clock)

abbrev recovery_error : Error → Error
recovery_error Error.not_found = no_command
recovery_error e = e

abbrev pub recovery : {A : Type 0} → Result A → Result A
recovery (ok a) = ok a
recovery (err e) = err (recovery_error e)

-- RecoverExpiredOnce
unfoldable pub recover_expired_once :
    Outside → Reconcile → (String → Bool) → List CommandRow → Result (CommandRow × List CommandRow)
unfolding reconciled
recover_expired_once o reconcile locked rows =
    recovery (do done ← recover_expired_lease rows locked o.clock; reconciled o reconcile done)

-- What one call of the recovery loop gets from outside.
pub record Turn : Type 0 where
  pub outside : Outside
  pub reconcile : Reconcile
  pub locked : String → Bool

-- The rows after the loop, and the error that ended it, `none` when the fuel ran out first.
pub record Recovered : Type 0 where
  pub rows : List CommandRow
  pub ended : Option Error

-- RunLeaseRecovery between two ticks: a recovery again and again until one fails. The turns are
-- numbered by the fuel.
unfoldable pub run_lease_recovery : (ℕ → Turn) → ℕ → List CommandRow → Recovered
unfolding recover_expired_once
run_lease_recovery turns zero rows = record { rows = rows; ended = none }
run_lease_recovery turns (suc n) rows =
    let turn = turns n in
    elim (recover_expired_once turn.outside turn.reconcile turn.locked rows) [
      | ok (r, left) ↦ run_lease_recovery turns n left
      | err e ↦ record { rows = rows; ended = some e }
    ]
