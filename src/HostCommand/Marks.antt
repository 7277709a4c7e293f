-- ===== src/HostCommand/Marks.antt =====
-- The one write to commands from another component: the warm pool marks the payload of a command whose
-- outcome it has seen to (internal/warmpool/controller.go).
use alcor_device_farm.Prelude.{
  ℕ, ◌≤◌, ◌≡◌, refl, ◌∙◌, ap, sym, subst, inl, inr, true, String, some, List, [], ◌∷◌, arith,
  Bool-cases,
}
use alcor_device_farm.Json.{Json, set_field}
use alcor_device_farm.Store.Rows.{find_row, update_where, count-update_same}
use alcor_device_farm.Store.Lookup.{update-found}
use alcor_device_farm.HostCommand.Table.{CommandRow, has_id}
use alcor_device_farm.HostCommand.Moves.{is_outcome}
use alcor_device_farm.HostCommand.Implements.{IsKeyed}
use alcor_device_farm.HostCommand.Steps.{Step, outcome, left, run, run-Implements}
use alcor_device_farm.HostCommand.Lifetime.{run-outcome_stays}

-- jsonb_set on the payload, which refuses anything but an object, so that the transaction is rolled
-- back
abbrev with_mark : ℕ → CommandRow → Json → CommandRow
with_mark clock r (Json.object fields) = record r {
  payload = Json.object (set_field "scale_down_reconciled" (Json.bool true) fields);
  updated_at = clock;
}
with_mark clock r _ = r

abbrev pub marked : ℕ → CommandRow → CommandRow
marked clock r = with_mark clock r r.payload

-- the UPDATE at the end of the reconciliation of a scale-down
unfoldable pub mark_reconciled : List CommandRow → String → ℕ → List CommandRow
mark_reconciled rows id clock = update_where (has_id id) (marked clock) rows

pub data Write : Type 0 where
  calls : Step → Write
  marks : String → ℕ → Write

unfoldable pub write : List CommandRow → Write → List CommandRow
unfolding mark_reconciled
write rows (calls x) = left rows (outcome rows x)
write rows (marks id clock) = mark_reconciled rows id clock

unfoldable pub run_writes : List CommandRow → List Write → List CommandRow
unfolding write
run_writes rows [] = rows
run_writes rows (x ∷ xs) = run_writes (write rows x) xs

-- the same command in all but its payload and the time of its last change
abbrev pub IsSettled : CommandRow → CommandRow → Type 0
IsSettled r q = q ≡ record r { payload = q.payload; updated_at = q.updated_at }

with_mark-IsSettled : (clock : ℕ) (r : CommandRow) (p : Json) → IsSettled r (with_mark clock r p)
with_mark-IsSettled clock r (Json.object fields) = refl
with_mark-IsSettled clock r _ = refl

-- What a write leaves of a command that has an outcome.
record IsLeft (id : String) (r : CommandRow) (rows : List CommandRow) : Type 0 where
  pub keyed : IsKeyed rows
  pub row : CommandRow
  pub found : find_row (has_id id) rows ≡ some row
  pub settled : IsSettled r row
  pub ended : is_outcome row.status ≡ true

write-IsLeft :
    (id : String) (r : CommandRow) (rows : List CommandRow) (x : Write)
    → IsLeft id r rows
    → IsLeft id r (write rows x)
unfolding write run mark_reconciled
write-IsLeft id r rows (calls x) l = record {
  keyed = λ i. (run-Implements rows (x ∷ []) l.keyed).keyed i (l.keyed i);
  row = l.row;
  found = run-outcome_stays rows (x ∷ []) id l.keyed l.found l.ended;
  settled = l.settled;
  ended = l.ended;
}
write-IsLeft id r rows (marks other clock) l =
    let settles : (q : CommandRow) → IsSettled q (marked clock q) =
      λ q. with_mark-IsSettled clock q q.payload in
    let ids : (i : String) (q : CommandRow) → has_id i (marked clock q) ≡ has_id i q =
      λ i q. ap (has_id i) (settles q) in
    let after =
      update-found (has_id id) (has_id other) (marked clock) (λ q _. ids id q) rows l.found in
    let keyed : IsKeyed (mark_reconciled rows other clock) = λ i.
      subst (λ n. n ≤ 1)
        (sym (count-update_same (has_id other) (has_id i) (marked clock) rows (λ q _. ids i q)))
        (l.keyed i) in
    elim (Bool-cases (has_id other l.row)) [
      | inl y ↦ record {
        keyed = keyed;
        row = marked clock l.row;
        found = ground (arith, after, y);
        settled =
            settles l.row
            ∙ ap {A = CommandRow} {B = CommandRow}
                (λ q. record q {
                  payload = (marked clock l.row).payload;
                  updated_at = (marked clock l.row).updated_at;
                })
                l.settled;
        ended = ap (λ q. is_outcome q.status) (settles l.row) ∙ l.ended;
      }
      | inr y ↦ record {
        keyed = keyed;
        row = l.row;
        found = ground (arith, after, y);
        settled = l.settled;
        ended = l.ended;
      }
    ]

run_writes-IsLeft :
    (id : String) (r : CommandRow) (rows : List CommandRow) (xs : List Write)
    → IsLeft id r rows
    → IsLeft id r (run_writes rows xs)
unfolding run_writes
run_writes-IsLeft id r rows [] l = l
run_writes-IsLeft id r rows (x ∷ xs) l =
    run_writes-IsLeft id r (write rows x) xs (write-IsLeft id r rows x l)

-- A command that has an outcome is found, whatever calls of internal/hostcommand, creations and marks
-- of the warm pool follow, in whatever order, on a table in which no id is twice: its row keeps its
-- status, its result, its error code, its attempts and all else but the payload and the time of its
-- last change.
pub run_writes-IsSettled :
    (rows : List CommandRow) (xs : List Write) (id : String) {r : CommandRow}
    → IsKeyed rows
    → find_row (has_id id) rows ≡ some r
    → is_outcome r.status ≡ true
    → (q : CommandRow) × (find_row (has_id id) (run_writes rows xs) ≡ some q) × IsSettled r q
run_writes-IsSettled rows xs id {r} k e o =
    let l =
      run_writes-IsLeft id r rows xs
        (record { keyed = k; row = r; found = e; settled = refl; ended = o }) in
    (l.row, l.found, l.settled)
