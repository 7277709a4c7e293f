-- ===== src/HostCommand/Polling.antt =====
-- internal/hostcommand/service.go, Claim: an agent takes several commands at once and waits for some.
-- A claim is one statement of its own, so that the commands claimed before an error stay leased.
use alcor_device_farm.Prelude.{
  ℕ, zero, suc, ◌*◌, Bool, true, false, ◌&&◌, ◌||◌, not, String, Option, none, some, List, [], ◌∷◌,
  leb, ◌==◌, if◌then◌else◌,
}
use alcor_device_farm.Text.{size}
use alcor_device_farm.Failure.{Error, Result, ok, err, no_id, invalid_argument, canceled}
use alcor_device_farm.HostCommand.Table.{CommandRow, claim_next}

pub record ClaimInput : Type 0 where
  pub lease_seconds : ℕ
  pub max_commands : ℕ
  pub wait_seconds : ℕ

-- What one round of the outer loop gets from outside. The claims of the round are numbered by how many
-- are still to do: the new token, the clock of the database and the rows that others lock. `late` is
-- time.Now().After(deadline) after the claims, `done` whether the context ends during the pause, and
-- `others` what other transactions leave of the rows by the end of it.
pub record Round : Type 0 where
  pub token : ℕ → Option String
  pub clock : ℕ → ℕ
  pub locked : ℕ → String → Bool
  pub late : Bool
  pub done : Bool
  pub others : List CommandRow → List CommandRow

-- The commands or the error, and the rows that are left.
pub record Claimed : Type 0 where
  pub result : Result (List CommandRow)
  pub rows : List CommandRow

abbrev pub and_first : CommandRow → Claimed → Claimed
and_first q out = record {
  result = elim out.result [ ok commands ↦ ok (q ∷ commands) | err e ↦ err e ];
  rows = out.rows;
}

-- The inner loop, for up to `n` more commands.
unfoldable pub claim_round : Round → String → ℕ → ℕ → List CommandRow → Claimed
claim_round round host seconds zero rows = record { result = ok ([]); rows = rows }
claim_round round host seconds (suc n) rows = elim (round.token n) [
  | none ↦ record { result = err no_id; rows = rows }
  | some token ↦
      elim (claim_next rows (round.locked n) host token (1000 * seconds) (round.clock n)) [
        | err Error.not_found ↦ record { result = ok ([]); rows = rows }
        | err e ↦ record { result = err e; rows = rows }
        | ok (q, left) ↦ and_first q (claim_round round host seconds n left)
      ]
]

abbrev pub valid_claim : String → ClaimInput → Bool
valid_claim host input =
    leb 16 (size host)
    && leb 5 input.lease_seconds
    && leb input.lease_seconds 300
    && leb 1 input.max_commands
    && leb input.max_commands 20
    && leb input.wait_seconds 30

abbrev pub is_none : List CommandRow → Bool
is_none [] = true
is_none (q ∷ commands) = false

-- The outer loop, for up to `fuel` rounds, numbered by the fuel; `none` when the fuel runs out.
unfoldable pub claim_rounds :
    (ℕ → Round) → String → ClaimInput → ℕ → List CommandRow → Option Claimed
unfolding claim_round
claim_rounds rounds host input zero rows = none
claim_rounds rounds host input (suc fuel) rows =
    let round = rounds fuel in
    let out = claim_round round host input.lease_seconds input.max_commands rows in
    elim out.result [
      | err e ↦ some out
      | ok commands ↦
          if not (is_none commands) || input.wait_seconds == 0 || round.late
          then some out
          else if round.done
          then some (record { result = err canceled; rows = round.others out.rows })
          else claim_rounds rounds host input fuel (round.others out.rows)
    ]

-- Claim
unfoldable pub claim_commands :
    (ℕ → Round) → String → ClaimInput → ℕ → List CommandRow → Option Claimed
unfolding claim_rounds
claim_commands rounds host input fuel rows =
    if not (valid_claim host input)
    then some (record { result = err invalid_argument; rows = rows })
    else claim_rounds rounds host input fuel rows
