-- ===== src/HostCommand/Queue.antt =====
-- The order in which commands are given to a host, and how often
-- (internal/repository/command.go, ClaimNext).
use alcor_device_farm.Prelude.{
  ℕ, ◌≡◌, refl, subst, inl, inr, Bool, false, ◌&&◌, not, String, some, List, arith, eq_refl,
  Option-cases, All,
}
use alcor_device_farm.Failure.{Result, ok, err, not_found}
use alcor_device_farm.Store.Rows.{find_row, update_where}
use alcor_device_farm.Store.Order.{IsEarliest, least-IsEarliest}
use alcor_device_farm.Store.Lookup.{least-found}
use alcor_device_farm.Repository.Queries.{precedes}
use alcor_device_farm.Repository.Writes.{update_returning}
use alcor_device_farm.HostCommand.Table.{
  CommandRow, has_id, claim_next, next_claimable, is_claimable, leased_row,
}
use alcor_device_farm.HostCommand.Implements.{IsKeyed}

-- a command that a claim may take
abbrev pub unlocked_claimable : (String → Bool) → String → CommandRow → Bool
unlocked_claimable locked host r = is_claimable host r && not (locked r.id)

next-IsEarliest :
    (rows : List CommandRow) (locked : String → Bool) (host : String)
    → IsEarliest
        (unlocked_claimable locked host)
        (λ r. r.created_at)
        rows
        (next_claimable rows locked host)
unfolding next_claimable
next-IsEarliest rows locked host =
    least-IsEarliest (λ a b. precedes a.created_at a.id b.created_at b.id) _ _ rows
      (λ a b h. ground arith) (λ a b h. ground arith)

-- What a claim has to return: the oldest command that may be taken, leased, with no
-- other row changed; or the error if there is no such command.
abbrev pub IsServed :
    List CommandRow
    → (String → Bool)
    → String
    → String
    → ℕ
    → ℕ
    → Result (CommandRow × List CommandRow)
    → Type 0
IsServed rows locked host token lease clock (ok (q, t)) =
    (c : CommandRow) × IsEarliest (unlocked_claimable locked host) (λ r. r.created_at) rows (some c)
    × (find_row (has_id c.id) rows ≡ some c)
    × (q ≡ leased_row token lease clock c)
    × (t ≡ update_where (has_id c.id) (leased_row token lease clock) rows)
IsServed rows locked host token lease clock (err e) =
    (e ≡ not_found) × All (λ x. unlocked_claimable locked host x ≡ false) rows

-- A claim for a host returns the oldest of its pending commands that has attempts left and that no
-- other transaction locks, with the new lease and one attempt more, changes no other row, and fails
-- only if there is no such command. No id is twice in the table.
pub claim_next-IsServed :
    (rows : List CommandRow) (locked : String → Bool) (host token : String) (lease clock : ℕ)
    → IsKeyed rows
    → IsServed rows locked host token lease clock (claim_next rows locked host token lease clock)
unfolding claim_next next_claimable update_returning
claim_next-IsServed rows locked host token lease clock keyed =
    elim (Option-cases (next_claimable rows locked host)) [
      | inl n ↦
          rw (n, claim_next)
            (refl, subst (IsEarliest _ _ rows) n (next-IsEarliest rows locked host))
      | inr (c, n) ↦
          let (passes, found) =
            least-found (λ a b. has_id a.id b) (λ r. eq_refl r.id) _ _ rows (λ r. keyed r.id) n in
          rw (n, claim_next)
            (rw (found, update_returning)
              (
                c,
                subst (IsEarliest _ _ rows) n (next-IsEarliest rows locked host),
                found,
                refl,
                refl,
              ))
    ]
