-- ===== src/HostCommand/Batch.antt =====
-- What the inner loop of a claim returns (internal/hostcommand/service.go, Claim).
use alcor_device_farm.Prelude.{
  ℕ, zero, suc, ◌*◌, ◌≤◌, ◌≡◌, refl, subst, inl, inr, Bool, true, false, String, some, List, [],
  ◌∷◌, arith, str_eq-cases, eq_iff, eq_refl, Bool-cases, Option-cases, All, any, length,
}
use alcor_device_farm.Failure.{OnOk, OnOk-ok, OnOk-err, Result-cases}
use alcor_device_farm.Store.Rows.{find_row, update_where, count-update_same}
use alcor_device_farm.Store.Lookup.{update-found, update-none}
use alcor_device_farm.HostCommand.Table.{
  CommandRow, has_id, claim_next, is_pending, is_leased, leased_row,
}
use alcor_device_farm.HostCommand.Implements.{IsKeyed, claim_next-Implements}
use alcor_device_farm.HostCommand.Queue.{IsServed, claim_next-IsServed, unlocked_claimable}
use alcor_device_farm.HostCommand.Polling.{Round, Claimed, and_first, claim_round}

-- no id is twice
abbrev pub Distinct : List CommandRow → Type 0
Distinct [] = Unit
Distinct (q ∷ commands) = (any (has_id q.id) commands ≡ false) × Distinct commands

-- a command of the host, leased, with an attempt that it is allowed
abbrev pub IsGiven : String → CommandRow → Type 0
IsGiven host q = (q.host_id ≡ host) × (is_leased q ≡ true) × (q.attempts ≤ q.max_attempts)

-- its row is pending
abbrev WasPending : List CommandRow → CommandRow → Type 0
WasPending rows q =
    (c : CommandRow) × (find_row (has_id q.id) rows ≡ some c) × (is_pending c ≡ true)

-- what a round returns
pub record IsBatch (host : String) (n : ℕ) (rows commands : List CommandRow) : Type 0 where
  pub bounded : length commands ≤ n
  pub given : All (IsGiven host) commands
  pub distinct : Distinct commands
  pub waiting : All (WasPending rows) commands

All-any :
    (id : String) (P : CommandRow → Type 0) (commands : List CommandRow)
    → All P commands
    → ((q : CommandRow) → P q → has_id id q ≡ false)
    → any (has_id id) commands ≡ false
All-any id P [] a h = refl
All-any id P (q ∷ commands) a h = ground (arith, h q a.0, All-any id P commands a.1 h)

All-imp :
    (P Q : CommandRow → Type 0) (rows : List CommandRow)
    → ((r : CommandRow) → P r → Q r)
    → All P rows
    → All Q rows
All-imp P Q [] h a = tt
All-imp P Q (x ∷ rows) h a = (h x a.0, All-imp P Q rows h a.1)

-- A row that is pending after a claim was pending before it.
claimed-WasPending :
    (rows : List CommandRow) (id token : String) (lease clock : ℕ) (q : CommandRow)
    → WasPending (update_where (has_id id) (leased_row token lease clock) rows) q
    → WasPending rows q
claimed-WasPending rows id token lease clock q (c, e, h) =
    elim (Option-cases (find_row (has_id q.id) rows)) [
      | inl n ↦
          let m =
            update-none (has_id q.id) (has_id id) (leased_row token lease clock) (λ r u. refl) rows
              n in
          absurd (cc)
      | inr (r, n) ↦
          let m =
            update-found (has_id q.id) (has_id id) (leased_row token lease clock) (λ r u. refl) rows
              n in
          elim (Bool-cases (has_id id r)) [
            | inl y ↦ absurd (ground (arith, m, e, y, h))
            | inr y ↦ (r, n, ground (arith, m, e, y, h))
          ]
    ]

-- The rows in which an inner loop claims, after a claim.
module _ (host token : String) (lease clock : ℕ) (locked : String → Bool) (n : ℕ)
    (rows commands : List CommandRow) (c : CommandRow)
    (claimable : unlocked_claimable locked host c ≡ true)
    (found : find_row (has_id c.id) rows ≡ some c) where
  abbrev given_row : CommandRow
  given_row = leased_row token lease clock c

  abbrev rows_left : List CommandRow
  rows_left = update_where (has_id c.id) (leased_row token lease clock) rows

  not_again : (q : CommandRow) → WasPending rows_left q → has_id c.id q ≡ false
  not_again q (r, e, h) =
      let m =
        update-found (has_id c.id) (has_id c.id) (leased_row token lease clock) (λ x u. refl) rows
          found in
      elim (str_eq-cases q.id c.id) [
        | inl (p, y) ↦
            let f = subst (λ i. find_row (has_id i) rows_left ≡ some r) p e in
            absurd (ground (arith, m, f, h, eq_refl c.id))
        | inr (p, y) ↦ y
      ]

  IsBatch-cons :
      IsBatch host n rows_left commands → IsBatch host (suc n) rows (given_row ∷ commands)
  IsBatch-cons b = record {
    bounded = ground (arith, b.bounded);
    given = (
      (ground (arith, claimable, eq_iff c.host_id host), refl, ground (arith, claimable)),
      b.given,
    );
    distinct = (All-any c.id (WasPending rows_left) commands b.waiting not_again, b.distinct);
    waiting = (
      (c, found, ground (arith, claimable)),
      All-imp _ _ commands (claimed-WasPending rows c.id token lease clock) b.waiting,
    );
  }

nothing-IsBatch : (host : String) (n : ℕ) (rows : List CommandRow) → IsBatch host n rows []
nothing-IsBatch host n rows = record {
  bounded = omega arith;
  given = tt;
  distinct = tt;
  waiting = tt;
}

and_first-OnOk :
    (P Q : List CommandRow → Type 0) (q : CommandRow) (out : Claimed)
    → ((commands : List CommandRow) → P commands → Q (q ∷ commands))
    → OnOk P out.result
    → OnOk Q (and_first q out).result
and_first-OnOk P Q q out h p = elim (Result-cases out.result) [
  | inl (commands, e) ↦ rw e (OnOk-ok _ (h commands (p.apply commands e)))
  | inr (x, e) ↦ rw e (OnOk-err _)
]

pub claim_round-IsBatch :
    (round : Round) (host : String) (seconds n : ℕ) (rows : List CommandRow)
    → IsKeyed rows
    → OnOk (IsBatch host n rows) (claim_round round host seconds n rows).result
unfolding claim_round
claim_round-IsBatch round host seconds zero rows k = OnOk-ok _ (nothing-IsBatch host zero rows)
claim_round-IsBatch round host seconds (suc n) rows k = elim (Option-cases (round.token n)) [
  | inl e ↦ rw (e, claim_round) (OnOk-err _)
  | inr (token, e) ↦
      let served =
        claim_next-IsServed rows (round.locked n) host token (1000 * seconds) (round.clock n) k in
      elim (Result-cases
        (claim_next rows (round.locked n) host token (1000 * seconds) (round.clock n))) [
          | inl ((q, t), f) ↦
              let (c, earliest, found, is_leased_c, is_left) =
                subst (IsServed rows _ _ _ _ _) f served in
              rw (e, claim_round)
                (rw (f, claim_round)
                  (and_first-OnOk (IsBatch host n t) _ q (claim_round round host seconds n t)
                    (λ commands b. rw is_leased_c (
                      IsBatch-cons host token (1000 * seconds) (round.clock n) (round.locked n) n
                        rows commands c earliest.0 found
                        (subst (λ u. IsBatch host n u commands) is_left b)))
                    (claim_round-IsBatch round host seconds n t (λ i. rw is_left (
                      omega (
                        arith,
                        count-update_same (has_id c.id) (has_id i)
                            (leased_row token (1000 * seconds) (round.clock n)) rows (λ x u. refl),
                        k i,
                      ))))))
          | inr (x, f) ↦
              let (same, none_left) = subst (IsServed rows _ _ _ _ _) f served in
              rw (e, claim_round)
                (rw (f, claim_round) (rw same (OnOk-ok _ (nothing-IsBatch host (suc n) rows))))
        ]
]

pub claim_round-IsKeyed :
    (round : Round) (host : String) (seconds n : ℕ) (rows : List CommandRow)
    → IsKeyed rows
    → IsKeyed (claim_round round host seconds n rows).rows
unfolding claim_round
claim_round-IsKeyed round host seconds zero rows k = k
claim_round-IsKeyed round host seconds (suc n) rows k = elim (Option-cases (round.token n)) [
  | inl e ↦ rw (e, claim_round) k
  | inr (token, e) ↦
      let claim =
        claim_next-Implements rows (round.locked n) host token (1000 * seconds) (round.clock n) k in
      let served =
        claim_next-IsServed rows (round.locked n) host token (1000 * seconds) (round.clock n) k in
      elim (Result-cases
        (claim_next rows (round.locked n) host token (1000 * seconds) (round.clock n))) [
          | inl ((q, t), f) ↦
              rw (e, claim_round)
                (rw (f, claim_round)
                  (claim_round-IsKeyed round host seconds n t
                    (λ id. (claim.apply (q, t) f).keyed id (k id))))
          | inr (x, f) ↦
              let (same, none_left) = subst (IsServed rows _ _ _ _ _) f served in
              rw (e, claim_round) (rw (f, claim_round) (rw same k))
        ]
]
