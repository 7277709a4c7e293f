-- ===== src/HostCommand/Waiting.antt =====
-- What an agent gets from a claim that may wait (internal/hostcommand/service.go, Claim).
use alcor_device_farm.Prelude.{
  ℕ, zero, suc, ◌≤◌, ◌<◌, ◌≡◌, refl, subst, inl, inr, true, false, ◌||◌, not, String, Option, some,
  List, arith, Bool-cases, All, length, ◌==◌,
}
use alcor_device_farm.Failure.{OnOk, OnOk-err, OnOk-imp, canceled, invalid_argument, Result-cases}
use alcor_device_farm.HostCommand.Table.{CommandRow}
use alcor_device_farm.HostCommand.Implements.{IsKeyed}
use alcor_device_farm.HostCommand.Polling.{
  Round, ClaimInput, Claimed, claim_round, claim_rounds, claim_commands, is_none, valid_claim,
}
use alcor_device_farm.HostCommand.Batch.{
  IsGiven, Distinct, claim_round-IsBatch, claim_round-IsKeyed,
}

-- what a claim may return: as many commands as asked for at most, each leased to the host, none twice
pub record IsAnswer (host : String) (n : ℕ) (commands : List CommandRow) : Type 0 where
  pub bounded : length commands ≤ n
  pub given : All (IsGiven host) commands
  pub distinct : Distinct commands

-- The call returned, and if it returned commands then such.
pub record HasAnswered (host : String) (n : ℕ) (o : Option Claimed) : Type 0 where
  pub out : Claimed
  pub returned : o ≡ some out
  pub answer : OnOk (IsAnswer host n) out.result

module _ (rounds : ℕ → Round) (host : String) (input : ClaimInput)
    (keep : (i : ℕ) (t : List CommandRow) → IsKeyed t → IsKeyed ((rounds i).others t)) where
  round-HasAnswered :
      (n : ℕ) (rows : List CommandRow)
      → IsKeyed rows
      → HasAnswered host input.max_commands
          (some (claim_round (rounds n) host input.lease_seconds input.max_commands rows))
  round-HasAnswered n rows k = record {
    out = _;
    returned = refl;
    answer =
        OnOk-imp _ _ _
          (λ commands b. record { bounded = b.bounded; given = b.given; distinct = b.distinct })
          (claim_round-IsBatch (rounds n) host input.lease_seconds input.max_commands rows k);
  }

  before :
      (i fuel : ℕ) → i < suc fuel → (rounds i).late ≡ true → (rounds fuel).late ≡ false → i < fuel
  before i fuel h late soon = elim (Bool-cases (i == fuel)) [
    | inl y ↦
        let same : i ≡ fuel = ground (arith, y) in
        let late_fuel = subst (λ j. (rounds j).late ≡ true) same late in cc
    | inr n ↦ ground (arith, n)
  ]

  rounds-HasAnswered :
      (i fuel : ℕ) (rows : List CommandRow)
      → IsKeyed rows
      → i < fuel
      → (rounds i).late ≡ true
      → HasAnswered host input.max_commands (claim_rounds rounds host input fuel rows)
  unfolding claim_rounds
  rounds-HasAnswered i zero rows k h late = absurd (omega arith)
  rounds-HasAnswered i (suc fuel) rows k h late =
      let round = rounds fuel in
      let out = claim_round round host input.lease_seconds input.max_commands rows in
      elim (Result-cases out.result) [
        | inr (x, e) ↦ rw (e, claim_rounds) (round-HasAnswered fuel rows k)
        | inl (commands, e) ↦
            elim (Bool-cases (not (is_none commands) || input.wait_seconds == 0 || round.late)) [
              | inl y ↦ rw (e, claim_rounds) (rw y (round-HasAnswered fuel rows k))
              | inr y ↦ elim (Bool-cases round.done) [
                | inl d ↦
                    rw (e, claim_rounds)
                      (rw y
                        (rw d (record { out = _; returned = refl; answer = OnOk-err canceled })))
                | inr d ↦
                    rw (e, claim_rounds)
                      (rw y (
                        rw d (
                          rounds-HasAnswered i fuel (round.others out.rows)
                            (keep fuel out.rows (
                              claim_round-IsKeyed round host input.lease_seconds input.max_commands
                                rows k))
                            (before i fuel h late (ground (arith, y))) late)))
              ]
            ]
      ]

-- A claim whose wait is over in one of the rounds that its fuel allows returns; and if it returns
-- commands, they are at most as many as asked for, each is leased to the host with an attempt that it
-- is allowed, and none is twice among them. No id is twice in the table, and what other transactions
-- do during a pause keeps it so.
pub claim_commands-HasAnswered :
    (rounds : ℕ → Round) (host : String) (input : ClaimInput) (i fuel : ℕ) (rows : List CommandRow)
    → ((j : ℕ) (t : List CommandRow) → IsKeyed t → IsKeyed ((rounds j).others t))
    → IsKeyed rows
    → i < fuel
    → (rounds i).late ≡ true
    → HasAnswered host input.max_commands (claim_commands rounds host input fuel rows)
unfolding claim_commands
claim_commands-HasAnswered rounds host input i fuel rows keep k h late =
    elim (Bool-cases (valid_claim host input)) [
      | inl v ↦ rw v (rounds-HasAnswered rounds host input keep i fuel rows k h late)
      | inr v ↦ rw v (record { out = _; returned = refl; answer = OnOk-err invalid_argument })
    ]
