-- ===== src/HostCommand/Moves.antt =====
-- What a host command promises: the moves that a row makes, one relation for the whole life of a
-- command. It says nothing of queues, tables or transactions.
use alcor_device_farm.Prelude.{
  ℕ, ◌≤◌, ◌<◌, ◌≡◌, ◌≢◌, refl, inl, inr, Bool, true, ◌||◌, String, Option, some, arith, Bool-cases,
  ltb,
}
use alcor_device_farm.Json.{Json}
use alcor_device_farm.Domain.Command.{CommandStatus, command_same}
use alcor_device_farm.HostCommand.Table.{
  CommandRow, CreateCommandParams, is_pending, is_leased, is_held, is_abandoned, is_retried,
  leased_row, completed_row, extended_row, recovered_row, new_row, passes_checks,
}

-- an outcome that an agent may report
abbrev pub is_outcome : CommandStatus → Bool
is_outcome status =
    command_same status CommandStatus.succeeded
    || command_same status CommandStatus.failed
    || command_same status CommandStatus.timed_out

-- What names a command and what it asks for, which nothing changes.
pub record Identity : Type 0 where
  pub id : String
  pub host_id : String
  pub command_type : String
  pub payload : Json
  pub max_attempts : ℕ
  pub idempotency_key : String

abbrev pub identity : CommandRow → Identity
identity r = record {
  id = r.id;
  host_id = r.host_id;
  command_type = r.command_type;
  payload = r.payload;
  max_attempts = r.max_attempts;
  idempotency_key = r.idempotency_key;
}

pub identity-recovered_row :
    (clock : ℕ) (r : CommandRow) → identity (recovered_row clock r) ≡ identity r
identity-recovered_row clock r = elim (Bool-cases (ltb r.attempts r.max_attempts)) [
  | inl e ↦ rw e refl
  | inr e ↦ rw e refl
]

pub data Move : CommandRow → CommandRow → Type 0 where
  claim :
      (r : CommandRow) (token : String) (lease clock : ℕ)
      → is_pending r ≡ true
      → ltb r.attempts r.max_attempts ≡ true
      → Move r (leased_row token lease clock r)
  complete :
      (r : CommandRow) (token : String) (attempt : ℕ) (status : CommandStatus) (result : Json)
      (code : Option String) (retryable : Bool) (clock : ℕ)
      → is_held token attempt clock r ≡ true
      → is_outcome status ≡ true
      → Move r (completed_row status result code retryable clock r)
  extend :
      (r : CommandRow) (token : String) (attempt lease clock : ℕ)
      → is_held token attempt clock r ≡ true
      → Move r (extended_row lease clock r)
  recover :
      (r : CommandRow) (clock : ℕ) → is_abandoned clock r ≡ true → Move r (recovered_row clock r)

pub identity-Move : (r s : CommandRow) → Move r s → identity s ≡ identity r
identity-Move r s (claim _ token lease clock h k) = refl
identity-Move r s (complete _ token attempt status result code retryable clock h k) = refl
identity-Move r s (extend _ token attempt lease clock h) = refl
identity-Move r s (recover _ clock h) = identity-recovered_row clock r

pub data Moves : CommandRow → CommandRow → Type 0 where
  stay : (r : CommandRow) → Moves r r
  next : {q r s : CommandRow} → Moves q r → Move r s → Moves q s

pub Moves-trans : {q r s : CommandRow} → Moves q r → Moves r s → Moves q s
Moves-trans m (stay _) = m
Moves-trans m (next n x) = next (Moves-trans m n) x

pub one : {r s : CommandRow} → Move r s → Moves r s
one x = next (stay _) x

-- A property of one row that every move keeps is kept by all of them.
pub Moves-keep :
    (P : CommandRow → Type 0)
    → ((r s : CommandRow) → Move r s → P r → P s)
    → {r s : CommandRow} → Moves r s
    → P r
    → P s
Moves-keep P h (stay _) p = p
Moves-keep P h (next m x) p = h _ _ x (Moves-keep P h m p)

-- the row of a command that was created and moved since
pub record Born (r : CommandRow) : Type 0 where
  pub params : CreateCommandParams
  pub clock : ℕ
  pub checked : passes_checks params ≡ true
  pub moves : Moves (new_row params clock) r

pub Born-keeps :
    (P : CommandRow → Type 0)
    → ((r s : CommandRow) → Move r s → P r → P s)
    → ((p : CreateCommandParams) (clock : ℕ) → passes_checks p ≡ true → P (new_row p clock))
    → {r : CommandRow} → Born r
    → P r
Born-keeps P h new b = Moves-keep P h b.moves (new b.params b.clock b.checked)

-- What holds of the row of a command at any time. The statuses are those of CHECK constraint
-- ck_device_host_commands_status, less `canceled`, which no move sets.
pub record WellFormed (r : CommandRow) : Type 0 where
  pub status : (is_pending r || is_leased r || is_outcome r.status) ≡ true
  pub attempts : r.attempts ≤ r.max_attempts
  -- a leased row, and no other, has a token and an end of the lease
  pub token : (t : String) → r.lease_token ≡ some t → is_leased r ≡ true
  pub expires : (e : ℕ) → r.lease_expires_at ≡ some e → is_leased r ≡ true
  pub leased :
      is_leased r ≡ true
      → ((t : String) × (r.lease_token ≡ some t))
        × ((e : ℕ) × (r.lease_expires_at ≡ some e))
        × 0 < r.attempts
  -- a row with an outcome, and no other, has a time of completion, and it was claimed
  pub completed : (c : ℕ) → r.completed_at ≡ some c → is_outcome r.status ≡ true
  pub ended : is_outcome r.status ≡ true → ((c : ℕ) × (r.completed_at ≡ some c)) × 0 < r.attempts

new_row-WellFormed :
    (p : CreateCommandParams) (clock : ℕ) → passes_checks p ≡ true → WellFormed (new_row p clock)
new_row-WellFormed p clock h = record {
  status = refl;
  attempts = omega arith;
  token = λ t e. cc;
  expires = λ t e. cc;
  leased = λ e. cc;
  completed = λ c e. cc;
  ended = λ e. cc;
}

pub outcome_not_leased :
    (status : CommandStatus)
    → is_outcome status ≡ true
    → command_same status CommandStatus.leased ≢ true
outcome_not_leased CommandStatus.leased o e = cc
outcome_not_leased _ o e = cc

Move-WellFormed : {r s : CommandRow} → Move r s → WellFormed r → WellFormed s
Move-WellFormed (claim r token lease clock h k) w = record {
  status = refl;
  attempts = ground arith;
  token = λ t e. refl;
  expires = λ t e. refl;
  leased = λ e. ((token, refl), (_, refl), omega arith);
  completed = λ c e. absurd (ground (arith, w.completed c e));
  ended = λ e. cc;
}
Move-WellFormed (complete r token attempt status result code retryable clock h o) w =
    elim (Bool-cases (is_retried status retryable r)) [
      | inl e ↦ rw e (record {
        status = refl;
        attempts = w.attempts;
        token = λ t e. cc;
        expires = λ t e. cc;
        leased = λ e. cc;
        completed = λ c e. cc;
        ended = λ e. cc;
      })
      | inr e ↦ rw e (record {
        status = ground (arith, o);
        attempts = w.attempts;
        token = λ t x. cc;
        expires = λ t x. cc;
        leased = λ x. absurd (outcome_not_leased status o x);
        completed = λ c x. o;
        ended = λ x. ((clock, refl), (w.leased (ground (arith, h))).2);
      })
    ]
Move-WellFormed (extend r token attempt lease clock h) w = record {
  status = w.status;
  attempts = w.attempts;
  token = w.token;
  expires = λ t e. ground (arith, h);
  leased = λ e. ((w.leased e).0, (_, refl), (w.leased e).2);
  completed = w.completed;
  ended = w.ended;
}
Move-WellFormed (recover r clock h) w = elim (Bool-cases (ltb r.attempts r.max_attempts)) [
  | inl e ↦ rw e (record {
    status = refl;
    attempts = w.attempts;
    token = λ t e. cc;
    expires = λ t e. cc;
    leased = λ e. cc;
    completed = λ c e. cc;
    ended = λ e. cc;
  })
  | inr e ↦ rw e (record {
    status = refl;
    attempts = w.attempts;
    token = λ t x. cc;
    expires = λ t x. cc;
    leased = λ x. cc;
    completed = λ c x. refl;
    ended = λ x. ((clock, refl), (w.leased (ground (arith, h))).2);
  })
]

pub Born-WellFormed : {r : CommandRow} → Born r → WellFormed r
Born-WellFormed b = Born-keeps WellFormed (λ r s x. Move-WellFormed x) new_row-WellFormed b
