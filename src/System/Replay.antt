-- ===== src/System/Replay.antt =====
-- A request that was carried out once is not carried out again, whatever happened in between.
use alcor_device_farm.Prelude.{
  ℕ, ◌≡◌, refl, inl, inr, Bool, true, some, List, arith, eq_refl, Bool-cases, Option-cases, ap, sym,
  subst, String,
}
use alcor_device_farm.Failure.{
  ok, ◌>>=◌, require, not_found, require-ok, OnOk, OnOk-ok, OnOk-err, >>=-OnOk, >>-OnOk,
}
use alcor_device_farm.Store.{Store, ReservationRow, OperationRow, RequestedCapabilities}
use alcor_device_farm.Store.Rows.{find_row}
use alcor_device_farm.Store.Lookup.{append-found, append-last}
use alcor_device_farm.Repository.Queries.{get_reservation}
use alcor_device_farm.Repository.Operations.{begin_operation, same_operation, same_request}
use alcor_device_farm.Repository.Writes.{
  reserve_for_claim, compensate_claim, fail_pending_claim, fail_pending_reservation, cancel_pending,
  extend, close_active, create_pending, activate_claimed, has_key, CreateReservationParams,
}
use alcor_device_farm.Text.{trim_space}
use alcor_device_farm.Reservation.Close.{Outside, release}
use alcor_device_farm.Reservation.Release.{ReleaseCall, release_tx, release_operation}
use alcor_device_farm.Reservation.Safety.{release_current-keeps, get_reservation-id}
use alcor_device_farm.Kept.{Kept}
use alcor_device_farm.System.{Step, run, run-keeps}

-- The operation was recorded, with the request that it was recorded for.
abbrev pub IsRecorded : OperationRow → Store → Type 0
IsRecorded p s =
    (q : OperationRow) × (find_row (same_operation p) s.operations ≡ some q)
    × (same_request p q ≡ true)

create-IsRecorded :
    (p : OperationRow) (same : RequestedCapabilities → RequestedCapabilities → Bool) (s : Store)
    (q : CreateReservationParams) (clock : ℕ)
    → IsRecorded p s
    → OnOk (λ t. IsRecorded p t.1) (create_pending same s q clock)
unfolding create_pending
create-IsRecorded p same s q clock x = >>-OnOk λ _.
    elim (Option-cases (find_row (has_key q.client_id q.idempotency_key) s.reservations)) [
      | inl e ↦ rw (e, create_pending) (>>-OnOk λ _. >>-OnOk λ _. >>-OnOk λ _. OnOk-ok _ x)
      | inr (r, e) ↦ rw (e, create_pending) (>>-OnOk λ _. OnOk-ok _ x)
    ]

IsRecorded-Kept : (p : OperationRow) → Kept (IsRecorded p)
unfolding reserve_for_claim compensate_claim fail_pending_claim fail_pending_reservation
    cancel_pending extend close_active activate_claimed
IsRecorded-Kept p = record {
  by_reserve = λ s r d t x. >>=-OnOk λ _ _. >>=-OnOk λ _ _. OnOk-ok _ x;
  by_compensate = λ s r d c b t x. >>=-OnOk λ _ _. >>=-OnOk λ _ _. >>=-OnOk λ _ _. OnOk-ok _ x;
  by_fail_claim = λ s r d c t x. >>=-OnOk λ _ _. >>=-OnOk λ _ _. OnOk-ok _ x;
  by_fail_pending = λ s r c t x. >>=-OnOk λ _ _. OnOk-ok _ x;
  by_cancel = λ s r c t x. >>=-OnOk λ _ _. OnOk-ok _ x;
  by_extend = λ s r e c x. >>=-OnOk λ _ _. OnOk-ok _ x;
  by_close = λ s r d t c g n _ _ _ _ x. >>=-OnOk λ _ _. >>=-OnOk λ _ _. OnOk-ok _ x;
  by_create = create-IsRecorded p;
  by_activate = λ s r d n t x.
      >>=-OnOk λ _ _. >>=-OnOk λ _ _. >>-OnOk λ _. >>-OnOk λ _. >>-OnOk λ _. OnOk-ok _ x;
  by_devices = λ s devices x. x;
  by_audit = λ s audits x. x;
  by_operation = λ s q x. (x.0, append-found (same_operation p) s.operations q x.1, x.2);
}

begin-IsRecorded :
    (s : Store) (p : OperationRow) → OnOk (λ t. IsRecorded p t.1) (begin_operation s p)
unfolding begin_operation
begin-IsRecorded s p = elim (Option-cases (find_row (same_operation p) s.operations)) [
  | inl e ↦
      rw (e, begin_operation)
        (OnOk-ok _
          (p, append-last (same_operation p) s.operations p e (itself p), itself_request p))
  | inr (q, e) ↦ elim (Bool-cases (same_request p q)) [
    | inl f ↦ rw (e, begin_operation) (rw f (OnOk-ok _ (q, e, f)))
    | inr f ↦ rw (e, begin_operation) (rw f (OnOk-err _))
  ]
]
  where
    itself : (p : OperationRow) → same_operation p p ≡ true
    itself p = ground (arith, eq_refl p.client_id, eq_refl p.scope, eq_refl p.idempotency_key)

    itself_request : (p : OperationRow) → same_request p p ≡ true
    itself_request p =
        ground (arith, eq_refl p.request_hash, eq_refl p.resource_type, eq_refl p.resource_id)

replays : (s : Store) (p : OperationRow) → IsRecorded p s → begin_operation s p ≡ ok (true, s)
unfolding begin_operation
replays s p (q, e, f) = rw (e, begin_operation) (rw f refl)

release_tx-IsRecorded :
    (o : Outside) (s : Store) (c : ReleaseCall)
    → OnOk (λ t. IsRecorded (release_operation o c) t.1) (release_tx o s c)
unfolding release_tx
release_tx-IsRecorded o s c = >>=-OnOk λ t begins. >>=-OnOk λ current found.
    let p = release_operation o c in
    let y = (begin-IsRecorded s p).apply t begins in
    elim (Bool-cases t.0) [
      | inl r ↦ rw r (OnOk-ok _ y)
      | inr r ↦ rw r (
          release_current-keeps (IsRecorded p) (IsRecorded-Kept p) o t.1 c current
            (get_reservation-id (IsRecorded p) (IsRecorded-Kept p) t.1 c.id
              (require-ok (get_reservation t.1 c.id) _ found))
            y)
    ]

-- Once a release has been carried out, whatever transactions of the scheduler, of the reservation
-- service and of the reaper follow, a later request for the same release with the same key, which has
-- a request id of its own and meets other clocks and generated ids, changes nothing: it returns the
-- reservation as it is then, and leaves the store. The hash of a request is a fixed function.
pub release_tx-replay :
    (o later : Outside) (s : Store) (c : ReleaseCall) (request_id : String) (steps : List Step)
    {row : ReservationRow} {t : Store}
    → later.hash ≡ o.hash
    → release_tx o s c ≡ ok (row, t)
    → let u = run t steps in
      release_tx later u (record c { request_id = request_id })
      ≡ (require (get_reservation u c.id) not_found >>= λ q. ok (q, u))
unfolding release_tx ◌>>=◌
release_tx-replay o later s c request_id steps {row} {t} same e =
    let p = release_operation o c in
    let again = release_operation later (record c { request_id = request_id }) in
    let renewed : again ≡ p =
      ap (λ hash. record p { request_hash = hash (release c.id (trim_space c.reason) c.force) })
        same in
    let recorded =
      run-keeps (IsRecorded p) (IsRecorded-Kept p) t steps
        ((release_tx-IsRecorded o s c).apply (row, t) e) in
    let replayed : begin_operation (run t steps) again ≡ ok (true, run t steps) =
      subst (λ x. begin_operation (run t steps) x ≡ ok (true, run t steps)) (sym renewed)
        (replays (run t steps) p recorded) in
    rw (replayed, release_tx) refl
