-- ===== src/Reservation/Safety.antt =====
-- The transactions of the reservation service keep the invariant of the store.
use alcor_device_farm.Prelude.{
  ℕ, ◌≡◌, refl, sym, inl, inr, true, false, String, some, arith, str_eq, eq_iff, Bool-cases,
  Option-cases, subst,
}
use alcor_device_farm.Audit.{Actor}
use alcor_device_farm.Failure.{
  OnOk, OnOk-ok, OnOk-err, >>=-OnOk, >>-OnOk, guard-ok, require-ok, Result-cases,
}
use alcor_device_farm.Domain.Reservation.{ReservationStatus, reservation_same}
use alcor_device_farm.Store.{Store, AuditRow, ReservationRow, OperationRow}
use alcor_device_farm.Store.Rows.{find_row, find_row-both, find_row-passes}
use alcor_device_farm.Repository.Queries.{is_active, is_pending, get_reservation}
use alcor_device_farm.Repository.Operations.{begin_operation, same_operation, same_request}
use alcor_device_farm.Repository.Writes.{insert_audit}
use alcor_device_farm.Reservation.Close.{Outside, Entry, record_entry, close_active_locked}
use alcor_device_farm.Reservation.Extend.{extend_current, extend_tx}
use alcor_device_farm.Reservation.Release.{
  ReleaseCall, cancel, release_current, release_tx, release_operation, stf_failure, is_closed,
}
use alcor_device_farm.Reservation.Reap.{reap_tx, reap_stale_tx, reap_orphan_tx}
use alcor_device_farm.Kept.{Kept}

module _ (I : Store → Type 0) (kept : Kept I) where
  insert_audit-keeps :
      (redact : String → String) (s : Store) (a : AuditRow) → I s → OnOk I (insert_audit redact s a)
  unfolding insert_audit
  insert_audit-keeps redact s a x = >>-OnOk λ _. OnOk-ok _ (kept.by_audit s _ x)

  pub record_entry-keeps :
      (o : Outside) (s : Store) (id : String) (e : Entry) → I s → OnOk I (record_entry o s id e)
  unfolding record_entry
  record_entry-keeps o s id e x = >>=-OnOk λ a _. insert_audit-keeps o.redact s _ x

  begin_operation-keeps :
      (s : Store) (p : OperationRow) → I s → OnOk (λ t. I t.1) (begin_operation s p)
  unfolding begin_operation
  begin_operation-keeps s p x = elim (Option-cases (find_row (same_operation p) s.operations)) [
    | inl e ↦ rw (e, begin_operation) (OnOk-ok _ (kept.by_operation s _ x))
    | inr (q, e) ↦ elim (Bool-cases (same_request p q)) [
      | inl f ↦ rw (e, begin_operation) (rw f (OnOk-ok _ x))
      | inr f ↦ rw (e, begin_operation) (rw f (OnOk-err _))
    ]
  ]

  -- the row that is found under an id is the one under its own id
  pub get_reservation-id :
      (s : Store) (id : String) {r : ReservationRow}
      → get_reservation s id ≡ some r
      → get_reservation s r.id ≡ some r
  unfolding get_reservation
  get_reservation-id s id {r} e =
      let same : r.id ≡ id =
        (eq_iff r.id id).0 (find_row-passes (λ q. str_eq q.id id) s.reservations e) in
      subst (λ i. get_reservation s i ≡ some r) (sym same) e

  pub close_active_locked-keeps :
      (o : Outside) (s : Store) (current : ReservationRow) (terminal : ReservationStatus)
      (e : Entry)
      → get_reservation s current.id ≡ some current
      → is_active current ≡ true
      → reservation_same terminal ReservationStatus.pending ≡ false
      → reservation_same terminal ReservationStatus.active ≡ false
      → I s
      → OnOk (λ t. I t.1) (close_active_locked o s current terminal e)
  unfolding close_active_locked get_reservation
  close_active_locked-keeps o s current terminal e found active np na x = >>=-OnOk λ id h.
      >>=-OnOk λ a _. >>=-OnOk λ b _. >>=-OnOk λ c _. >>=-OnOk λ d _. >>=-OnOk λ f _.
        >>=-OnOk λ g _. >>=-OnOk λ v _. >>=-OnOk λ state _. >>=-OnOk λ m _. >>=-OnOk λ y _.
          >>=-OnOk λ t closes. >>=-OnOk λ u records. OnOk-ok _ (
            (record_entry-keeps o t.1 current.id e (
                (kept.by_close s current.id id terminal _ _ o.clock
                    (find_row-both (λ r. str_eq r.id current.id) is_active s.reservations found
                      active)
                    (require-ok current.device_id _ h) np na x).apply
                  t closes)).apply
              u records)

  cancel-keeps :
      (o : Outside) (s : Store) (c : ReleaseCall) (current : ReservationRow)
      → I s
      → OnOk (λ t. I t.1) (cancel o s c current)
  unfolding cancel
  cancel-keeps o s c current x = >>-OnOk λ _. >>=-OnOk λ a _. >>=-OnOk λ b _. >>=-OnOk λ t cancels.
      >>=-OnOk λ u records. OnOk-ok _ (
        (record_entry-keeps o t.1 current.id _
            ((kept.by_cancel s current.id "RESERVATION_CANCELED" o.clock x).apply t cancels)).apply
          u records)

  pub release_current-keeps :
      (o : Outside) (s : Store) (c : ReleaseCall) (current : ReservationRow)
      → get_reservation s current.id ≡ some current
      → I s
      → OnOk (λ t. I t.1) (release_current o s c current)
  unfolding release_current
  release_current-keeps o s c current found x = elim (Bool-cases (is_pending current)) [
    | inl p ↦ rw (p, release_current) (cancel-keeps o s c current x)
    | inr p ↦ elim (Bool-cases (is_active current)) [
      | inl a ↦
          rw (p, a, release_current)
            (close_active_locked-keeps o s current _ _ found a (ground arith) (ground arith) x)
      | inr a ↦ elim (Bool-cases (is_closed current.status)) [
        | inl d ↦ rw (p, a, d, release_current) (OnOk-ok _ x)
        | inr d ↦ rw (p, a, d, release_current) (OnOk-err _)
      ]
    ]
  ]

  -- Release keeps the invariant.
  pub release_tx-keeps :
      (o : Outside) (s : Store) (c : ReleaseCall) → I s → OnOk (λ t. I t.1) (release_tx o s c)
  unfolding release_tx
  release_tx-keeps o s c x = >>=-OnOk λ t begins. >>=-OnOk λ current found.
      let y = (begin_operation-keeps s (release_operation o c) x).apply t begins in
      elim (Bool-cases t.0) [
        | inl r ↦ rw r (OnOk-ok _ y)
        | inr r ↦ rw r (
            release_current-keeps o t.1 c current
              (get_reservation-id t.1 c.id (require-ok (get_reservation t.1 c.id) _ found)) y)
      ]

  extend_current-keeps :
      (o : Outside) (s : Store) (id : String) (seconds : ℕ)
      → I s
      → OnOk (λ t. I t.1) (extend_current o s id seconds)
  unfolding extend_current
  extend_current-keeps o s id seconds x = >>=-OnOk λ r _. >>-OnOk λ _.
      >>=-OnOk
        λ expires _. >>-OnOk λ _. >>=-OnOk λ policy _. >>-OnOk λ _. kept.by_extend s id _ o.clock x

  -- Extend keeps the invariant.
  pub extend_tx-keeps :
      (o : Outside) (s : Store) (actor : Actor) (key id : String) (seconds : ℕ)
      → I s
      → OnOk (λ t. I t.1) (extend_tx o s actor key id seconds)
  unfolding extend_tx
  extend_tx-keeps o s actor key id seconds x = >>=-OnOk λ t begins.
      let y = (begin_operation-keeps s _ x).apply t begins in
      elim (Bool-cases t.0) [
        | inl r ↦ rw r (>>=-OnOk λ current _. OnOk-ok _ y)
        | inr r ↦ rw r (extend_current-keeps o t.1 id seconds y)
      ]

  -- So do the three transactions of the reaper.
  pub reap_tx-keeps :
      (o : Outside) (s : Store) (id : String) (grace : ℕ)
      → I s
      → OnOk (λ t. I t.1) (reap_tx o s id grace)
  unfolding reap_tx
  reap_tx-keeps o s id grace x = >>=-OnOk λ current found. >>-OnOk λ active. >>=-OnOk λ expires _.
      >>-OnOk λ _.
        close_active_locked-keeps o s current _ _
          (get_reservation-id s id (require-ok (get_reservation s id) _ found))
          (guard-ok (is_active current) _ active) refl refl x

  pub reap_stale_tx-keeps :
      (o : Outside) (s : Store) (id : String) (timeout grace : ℕ)
      → I s
      → OnOk (λ t. I t.1) (reap_stale_tx o s id timeout grace)
  unfolding reap_stale_tx
  reap_stale_tx-keeps o s id timeout grace x = >>=-OnOk λ current _. >>-OnOk λ _. >>-OnOk λ _.
      >>=-OnOk λ t fails. >>=-OnOk λ u records. >>=-OnOk λ row _. OnOk-ok _ (
        (record_entry-keeps o t id _
            ((kept.by_fail_pending s id "PENDING_TIMEOUT" o.clock x).apply t fails)).apply
          u records)

  pub reap_orphan_tx-keeps :
      (o : Outside) (s : Store) (id : String) (grace : ℕ)
      → I s
      → OnOk (λ t. I t.1) (reap_orphan_tx o s id grace)
  unfolding reap_orphan_tx
  reap_orphan_tx-keeps o s id grace x = >>=-OnOk λ current _. >>-OnOk λ _. >>=-OnOk λ device _.
      >>-OnOk λ _. >>=-OnOk λ t fails. >>=-OnOk λ u records. >>=-OnOk λ row _. OnOk-ok _ (
        (record_entry-keeps o t id _
            ((kept.by_fail_claim s id device "CLAIM_ABANDONED" o.clock x).apply t fails)).apply
          u records)

  -- So does the record of a failed release.
  pub stf_failure-keeps :
      (o : Outside) (s : Store) (id : String) (e : Entry) → I s → I (stf_failure o s id e)
  unfolding stf_failure
  stf_failure-keeps o s id e x = elim (Result-cases (record_entry o s id e)) [
    | inl (t, f) ↦ rw (f, stf_failure) ((record_entry-keeps o s id e x).apply t f)
    | inr (y, f) ↦ rw (f, stf_failure) x
  ]
