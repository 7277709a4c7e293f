-- ===== src/HostCommand/Table.antt =====
-- internal/repository/command.go: the table device_host_commands and its updates. Each function is
-- one statement: it takes the rows that the statement sees and returns a row and the rows that it
-- leaves. `locked` says which rows another transaction holds, which SKIP LOCKED passes over.
use alcor_device_farm.Prelude.{
  ℕ, suc, ◌+◌, ◌*◌, Bool, false, ◌&&◌, not, String, Option, none, some, List, [], ◌∷◌, ◌++◌, any,
  str_eq, ltb, leb, ◌==◌, if◌then◌else◌,
}
use alcor_device_farm.Text.{is_identifier}
use alcor_device_farm.Failure.{
  Result, ok, err, ◌>>◌, guard, not_found, idempotency_conflict, unique_violation, check_violation,
  foreign_key_violation, lease_conflict,
}
use alcor_device_farm.Json.{Json, json_equal}
use alcor_device_farm.Domain.Command.{CommandStatus, command_same}
use alcor_device_farm.Store.Rows.{find_row, select, least}
use alcor_device_farm.Repository.Queries.{precedes}
use alcor_device_farm.Repository.Writes.{update_returning}

-- CreateCommandParams
pub record CreateCommandParams : Type 0 where
  pub id : String
  pub host_id : String
  pub command_type : String
  pub payload : Json
  pub max_attempts : ℕ
  pub idempotency_key : String

-- CommandRecord
pub record CommandRow : Type 0 where
  pub id : String
  pub host_id : String
  pub command_type : String
  pub payload : Json
  pub status : CommandStatus
  pub lease_token : Option String
  pub lease_expires_at : Option ℕ
  pub attempts : ℕ
  pub max_attempts : ℕ
  pub idempotency_key : String
  pub created_at : ℕ
  pub updated_at : ℕ
  pub result : Option Json
  pub error_code : Option String
  pub completed_at : Option ℕ

abbrev pub has_id : String → CommandRow → Bool
has_id id r = str_eq r.id id

-- ck_device_host_commands_type
abbrev command_types : List String
command_types =
    "create" ∷ "start" ∷ "stop" ∷ "restart" ∷ "rebuild" ∷ "delete" ∷ "inspect" ∷ "validate_image"
    ∷ "sync_android_catalog" ∷ "prepare_android_image" ∷ []

-- The CHECK constraints on an inserted row.
unfoldable pub passes_checks : CreateCommandParams → Bool
passes_checks p =
    is_identifier p.id && any (λ t. str_eq t p.command_type) command_types && ltb 0 p.max_attempts

abbrev pub has_key : String → String → CommandRow → Bool
has_key host key r = str_eq r.host_id host && str_eq r.idempotency_key key

-- Is the returned row the requested one?
unfoldable pub same_command_request : CommandRow → CreateCommandParams → Bool
same_command_request r p =
    str_eq r.host_id p.host_id
    && str_eq r.command_type p.command_type
    && r.max_attempts == p.max_attempts
    && str_eq r.idempotency_key p.idempotency_key
    && json_equal r.payload p.payload

abbrev pub new_row : CreateCommandParams → ℕ → CommandRow
new_row p clock = record {
  id = p.id;
  host_id = p.host_id;
  command_type = p.command_type;
  payload = p.payload;
  status = CommandStatus.pending;
  lease_token = none;
  lease_expires_at = none;
  attempts = 0;
  max_attempts = p.max_attempts;
  idempotency_key = p.idempotency_key;
  created_at = clock;
  updated_at = clock;
  result = none;
  error_code = none;
  completed_at = none;
}

-- Create: the row of the host with the key, or else a new one. `hosts` are the ids of device_hosts.
unfoldable pub create :
    (String → Bool)
    → List CommandRow
    → CreateCommandParams
    → ℕ
    → Result (CommandRow × List CommandRow)
unfolding passes_checks same_command_request
create hosts rows p clock = do
  guard (passes_checks p) check_violation
  elim (find_row (has_key p.host_id p.idempotency_key) rows) [
    | some r ↦ do guard (same_command_request r p) idempotency_conflict; ok (r, rows)
    | none ↦ do
      guard (not (any (has_id p.id) rows)) unique_violation
      guard (hosts p.host_id) foreign_key_violation
      guard (same_command_request (new_row p clock) p) idempotency_conflict
      ok (new_row p clock, rows ++ new_row p clock ∷ [])
  ]

abbrev pub is_pending : CommandRow → Bool
is_pending r = command_same r.status CommandStatus.pending

abbrev pub is_leased : CommandRow → Bool
is_leased r = command_same r.status CommandStatus.leased

-- may be claimed by the host
abbrev pub is_claimable : String → CommandRow → Bool
is_claimable host r = str_eq r.host_id host && is_pending r && ltb r.attempts r.max_attempts

-- The lease is in milliseconds.
abbrev pub leased_row : String → ℕ → ℕ → CommandRow → CommandRow
leased_row token lease clock r = record r {
  status = CommandStatus.leased;
  lease_token = some token;
  lease_expires_at = some (clock + 1000 * lease);
  attempts = suc r.attempts;
  updated_at = clock;
}

-- the row that a claim takes
unfoldable pub next_claimable : List CommandRow → (String → Bool) → String → Option CommandRow
next_claimable rows locked host =
    least (λ a b. precedes a.created_at a.id b.created_at b.id)
      (select (λ r. is_claimable host r && not (locked r.id)) rows)

-- ClaimNext
unfoldable pub claim_next :
    List CommandRow
    → (String → Bool)
    → String
    → String
    → ℕ
    → ℕ
    → Result (CommandRow × List CommandRow)
unfolding next_claimable
claim_next rows locked host token lease clock = elim (next_claimable rows locked host) [
  | none ↦ err not_found
  | some c ↦ update_returning (has_id c.id) (leased_row token lease clock) rows not_found
]

abbrev pub same_token : String → Option String → Bool
same_token token none = false
same_token token (some held) = str_eq held token

-- lease_expires_at >= clock_timestamp(), which no NULL passes
abbrev pub is_unexpired : ℕ → Option ℕ → Bool
is_unexpired clock none = false
is_unexpired clock (some expires) = leb clock expires

-- the attempt holds the lease
abbrev pub is_held : String → ℕ → ℕ → CommandRow → Bool
is_held token attempt clock r =
    is_leased r
    && same_token token r.lease_token
    && r.attempts == attempt
    && is_unexpired clock r.lease_expires_at

-- a failure after which the command is tried again
abbrev pub is_retried : CommandStatus → Bool → CommandRow → Bool
is_retried status retryable r =
    retryable && command_same status CommandStatus.failed && ltb r.attempts r.max_attempts

abbrev pub completed_row : CommandStatus → Json → Option String → Bool → ℕ → CommandRow → CommandRow
completed_row status result code retryable clock r = record r {
  status = if is_retried status retryable r then CommandStatus.pending else status;
  lease_token = none;
  lease_expires_at = none;
  result = some result;
  error_code = code;
  completed_at = if is_retried status retryable r then none else some clock;
  updated_at = clock;
}

-- Complete
unfoldable pub complete :
    List CommandRow
    → String
    → String
    → ℕ
    → CommandStatus
    → Json
    → Option String
    → Bool
    → ℕ
    → Result (CommandRow × List CommandRow)
complete rows id token attempt status result code retryable clock =
    update_returning (λ r. has_id id r && is_held token attempt clock r)
      (completed_row status result code retryable clock) rows lease_conflict

abbrev pub extended_row : ℕ → ℕ → CommandRow → CommandRow
extended_row lease clock r = record r {
  lease_expires_at = some (clock + 1000 * lease);
  updated_at = clock;
}

-- ExtendLease
unfoldable pub extend_lease :
    List CommandRow → String → String → ℕ → ℕ → ℕ → Result (CommandRow × List CommandRow)
extend_lease rows id token attempt lease clock =
    update_returning (λ r. has_id id r && is_held token attempt clock r) (extended_row lease clock)
      rows lease_conflict

-- lease_expires_at < clock_timestamp(), which no NULL passes
abbrev pub is_over : ℕ → Option ℕ → Bool
is_over clock none = false
is_over clock (some expires) = ltb expires clock

abbrev pub is_abandoned : ℕ → CommandRow → Bool
is_abandoned clock r = is_leased r && is_over clock r.lease_expires_at

abbrev pub expiry : CommandRow → ℕ
expiry r = elim r.lease_expires_at [ none ↦ 0 | some expires ↦ expires ]

abbrev pub recovered_row : ℕ → CommandRow → CommandRow
recovered_row clock r =
    if ltb r.attempts r.max_attempts
    then record r {
      status = CommandStatus.pending;
      lease_token = none;
      lease_expires_at = none;
      error_code = none;
      completed_at = none;
      updated_at = clock;
    }
    else record r {
      status = CommandStatus.timed_out;
      lease_token = none;
      lease_expires_at = none;
      error_code = some "COMMAND_ATTEMPTS_EXHAUSTED";
      completed_at = some clock;
      updated_at = clock;
    }

-- the row that a recovery takes
unfoldable pub next_abandoned : List CommandRow → (String → Bool) → ℕ → Option CommandRow
next_abandoned rows locked clock =
    least (λ a b. precedes (expiry a) a.id (expiry b) b.id)
      (select (λ r. is_abandoned clock r && not (locked r.id)) rows)

-- RecoverExpiredLease
unfoldable pub recover_expired_lease :
    List CommandRow → (String → Bool) → ℕ → Result (CommandRow × List CommandRow)
unfolding next_abandoned
recover_expired_lease rows locked clock = elim (next_abandoned rows locked clock) [
  | none ↦ err not_found
  | some c ↦ update_returning (has_id c.id) (recovered_row clock) rows not_found
]
