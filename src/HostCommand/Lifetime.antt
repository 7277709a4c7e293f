-- ===== src/HostCommand/Lifetime.antt =====
-- What the moves of a command say of the table, whatever transactions run on it.
use alcor_device_farm.Prelude.{◌≡◌, refl, subst, true, false, String, some, List, [], arith}
use alcor_device_farm.Store.Rows.{find_row, count}
use alcor_device_farm.HostCommand.Table.{CommandRow, has_id}
use alcor_device_farm.HostCommand.Moves.{Move, Moves-keep, WellFormed, Born-WellFormed, is_outcome}
use alcor_device_farm.HostCommand.Implements.{IsKeyed}
use alcor_device_farm.HostCommand.Steps.{Step, run, run-Implements}

empty-IsKeyed : IsKeyed []
unfolding count
empty-IsKeyed id = omega arith

-- From an empty table, after any transactions in any order, the row of each command is pending,
-- leased or has an outcome; its attempts are at most the allowed ones; it has a token and an end of
-- its lease just when it is leased, and a time of completion just when it has an outcome; and a leased
-- or completed command was claimed.
pub run-WellFormed :
    (xs : List Step) (id : String) {r : CommandRow}
    → find_row (has_id id) (run [] xs) ≡ some r
    → WellFormed r
unfolding find_row
run-WellFormed xs id e = Born-WellFormed ((run-Implements [] xs empty-IsKeyed).fresh id _ refl e)

-- no move leaves an outcome
Move-open : (r s : CommandRow) → Move r s → is_outcome r.status ≡ false
Move-open r s (Move.claim _ token lease clock h k) = ground (arith, h)
Move-open r s (Move.complete _ token attempt status result code retryable clock h k) =
    ground (arith, h)
Move-open r s (Move.extend _ token attempt lease clock h) = ground (arith, h)
Move-open r s (Move.recover _ clock h) = ground (arith, h)

-- A command that has an outcome keeps its row, whatever calls and creations follow, in whatever order,
-- on a table in which no id is twice. Marks of the warm pool are not among them.
pub run-outcome_stays :
    (rows : List CommandRow) (xs : List Step) (id : String) {r : CommandRow}
    → IsKeyed rows
    → find_row (has_id id) rows ≡ some r
    → is_outcome r.status ≡ true
    → find_row (has_id id) (run rows xs) ≡ some r
run-outcome_stays rows xs id {r} k e o =
    let (q, f, m) = (run-Implements rows xs k).kept id r e in
    let same : r ≡ q =
      Moves-keep (λ s. r ≡ s)
        (λ a b x h.
          let open_a = Move-open a b x in
          let closed = subst (λ s. is_outcome s.status ≡ true) h o in cc)
        m refl in
    rw same f
