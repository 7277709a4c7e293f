-- ===== src/Unshared.antt =====
-- No device has two active reservations: the invariant, and that each update of the repository keeps
-- it. It says nothing of the lifecycle of the device, which other components change too.
use alcor_device_farm.Prelude.{
  ℕ, ◌+◌, ◌*◌, ◌≤◌, ◌≡◌, ◌≢◌, refl, inl, inr, Bool, true, false, ◌&&◌, String, some, List, [], ◌∷◌,
  ◌++◌, arith, any, str_eq, str_eq-cases, Option-cases, sym, subst,
}
use alcor_device_farm.Failure.{OnOk, OnOk-ok, >>=-OnOk, >>-OnOk, guard-ok}
use alcor_device_farm.Domain.Lifecycle.{DeviceLifecycleStatus}
use alcor_device_farm.Domain.Reservation.{ReservationStatus, reservation_same}
use alcor_device_farm.Store.{Store, ReservationRow, RequestedCapabilities, second}
use alcor_device_farm.Store.Rows.{
  update_where, count, both, count-update_where, count-none, count_mono, count-append, find_row,
  count-update_same,
}
use alcor_device_farm.Store.Lookup.{any-count}
use alcor_device_farm.Repository.Queries.{is_active, names_device}
use alcor_device_farm.Repository.Writes.{
  reserve_for_claim, compensate_claim, fail_pending_claim, fail_pending_reservation, cancel_pending,
  extend, close_active, create_pending, CreateReservationParams, pending_row, has_key, is_claim,
  activate_claimed, update_one-ok, update_returning-ok,
}
use alcor_device_farm.Paired.{has_row}
use alcor_device_farm.Kept.{Kept}

-- an active reservation of the device
abbrev pub occupies : String → ReservationRow → Bool
occupies device r = is_active r && names_device device r.device_id

-- No id is twice among the reservations, and no device has two active ones.
pub record AreUnshared (rows : List ReservationRow) : Type 0 where
  pub keyed : (id : String) → count (has_row id) rows ≤ 1
  pub single : (d : String) → count (occupies d) rows ≤ 1

abbrev pub IsUnshared : Store → Type 0
IsUnshared s = AreUnshared s.reservations

-- An update that keeps the ids and activates nothing.
update-AreUnshared :
    (p : ReservationRow → Bool) (f : ReservationRow → ReservationRow) (rows : List ReservationRow)
    → ((r : ReservationRow) → (f r).id ≡ r.id)
    → ((r : ReservationRow) (d : String)
        → p r ≡ true
        → occupies d (f r) ≡ true
        → occupies d r ≡ true)
    → AreUnshared rows
    → AreUnshared (update_where p f rows)
update-AreUnshared p f rows ids less x = record {
  keyed =
      λ id. omega (arith, x.keyed id, count-update_same p (has_row id) f rows (λ r h. rw (ids r)));
  single = λ d. omega (
    arith,
    x.single d,
    count-update_where p (occupies d) f rows,
    count_mono (both p (λ r. occupies d (f r))) (both p (occupies d)) rows
        (λ r h. ground (arith, less r d)),
  );
}

reserve-IsUnshared :
    (s : Store) (reservation device : String) (time : ℕ)
    → IsUnshared s
    → OnOk IsUnshared (reserve_for_claim s reservation device time)
unfolding reserve_for_claim
reserve-IsUnshared s reservation device time x = >>=-OnOk λ devices e. >>=-OnOk λ rows f.
    OnOk-ok _ (
      let (_, r) = update_one-ok _ _ s.reservations _ f in
      rw r (update-AreUnshared _ _ s.reservations (λ y. refl) (λ y d p h. ground arith) x))

compensate-IsUnshared :
    (s : Store) (reservation device code : String) (terminal : Bool) (time : ℕ)
    → IsUnshared s
    → OnOk IsUnshared (compensate_claim s reservation device code terminal time)
unfolding compensate_claim
compensate-IsUnshared s reservation device code terminal time x = >>=-OnOk λ a _. >>=-OnOk λ b _.
    >>=-OnOk λ rows f. OnOk-ok _ (
      let (_, r) = update_one-ok _ _ s.reservations _ f in
      rw r (update-AreUnshared _ _ s.reservations (λ y. refl) (λ y d p h. ground arith) x))

fail_claim-IsUnshared :
    (s : Store) (reservation device code : String) (time : ℕ)
    → IsUnshared s
    → OnOk IsUnshared (fail_pending_claim s reservation device code time)
unfolding fail_pending_claim
fail_claim-IsUnshared s reservation device code time x = >>=-OnOk λ a _. >>=-OnOk λ rows f.
    OnOk-ok _ (
      let (_, r) = update_one-ok _ _ s.reservations _ f in
      rw r (update-AreUnshared _ _ s.reservations (λ y. refl) (λ y d p h. ground arith) x))

fail_pending-IsUnshared :
    (s : Store) (reservation code : String) (time : ℕ)
    → IsUnshared s
    → OnOk IsUnshared (fail_pending_reservation s reservation code time)
unfolding fail_pending_reservation
fail_pending-IsUnshared s reservation code time x = >>=-OnOk λ rows f. OnOk-ok _ (
    let (_, r) = update_one-ok _ _ s.reservations _ f in
    rw r (update-AreUnshared _ _ s.reservations (λ y. refl) (λ y d p h. ground arith) x))

cancel-IsUnshared :
    (s : Store) (reservation code : String) (time : ℕ)
    → IsUnshared s
    → OnOk (λ t. IsUnshared t.1) (cancel_pending s reservation code time)
unfolding cancel_pending
cancel-IsUnshared s reservation code time x = >>=-OnOk λ out f. OnOk-ok _ (
    let (_, _, r) = update_returning-ok _ _ s.reservations _ f in
    rw r (update-AreUnshared _ _ s.reservations (λ y. refl) (λ y d p h. ground arith) x))

extend-IsUnshared :
    (s : Store) (reservation : String) (expires clock : ℕ)
    → IsUnshared s
    → OnOk (λ t. IsUnshared t.1) (extend s reservation expires clock)
unfolding extend
extend-IsUnshared s reservation expires clock x = >>=-OnOk λ out f. OnOk-ok _ (
    let (_, _, r) = update_returning-ok _ _ s.reservations _ f in
    rw r (update-AreUnshared _ _ s.reservations (λ y. refl) (λ y d p h. h) x))

close-IsUnshared :
    (s : Store) (reservation device : String) (terminal : ReservationStatus) (recycle : Bool)
    (target : DeviceLifecycleStatus) (time : ℕ)
    → reservation_same terminal ReservationStatus.active ≡ false
    → IsUnshared s
    → OnOk (λ t. IsUnshared t.1) (close_active s reservation device terminal recycle target time)
unfolding close_active
close-IsUnshared s reservation device terminal recycle target time n x = >>=-OnOk λ devices _.
    >>=-OnOk λ out f. OnOk-ok _ (
      let (_, _, r) = update_returning-ok _ _ s.reservations _ f in
      rw r (update-AreUnshared _ _ s.reservations (λ y. refl) (λ y d p h. ground (arith, n)) x))

-- a new row, which is pending and has an id of its own
created-AreUnshared :
    (rows : List ReservationRow) (p : CreateReservationParams) (clock : ℕ)
    → any (λ r. str_eq r.id p.id) rows ≡ false
    → AreUnshared rows
    → AreUnshared (rows ++ pending_row p clock ∷ [])
unfolding count
created-AreUnshared rows p clock new x = record {
  keyed = λ id. elim (str_eq-cases p.id id) [
    | inl (e, y) ↦
        let none_yet : count (has_row id) rows ≡ 0 =
          subst (λ i. count (has_row i) rows ≡ 0) e (any-count _ rows new) in
        ground (arith, none_yet, count-append (has_row id) rows (pending_row p clock ∷ []))
    | inr (e, y) ↦
        ground (arith, y, x.keyed id, count-append (has_row id) rows (pending_row p clock ∷ []))
  ];
  single =
      λ d. ground (arith, x.single d, count-append (occupies d) rows (pending_row p clock ∷ []));
}

create-IsUnshared :
    (same : RequestedCapabilities → RequestedCapabilities → Bool) (s : Store)
    (p : CreateReservationParams) (clock : ℕ)
    → IsUnshared s
    → OnOk (λ t. IsUnshared t.1) (create_pending same s p clock)
unfolding create_pending
create-IsUnshared same s p clock x = >>-OnOk λ _.
    elim (Option-cases (find_row (has_key p.client_id p.idempotency_key) s.reservations)) [
      | inl e ↦
          rw (e, create_pending)
            (>>-OnOk λ new. >>-OnOk λ _. >>-OnOk λ _.
              OnOk-ok _
                (created-AreUnshared s.reservations p clock (ground (arith, guard-ok _ _ new)) x))
      | inr (r, e) ↦ rw (e, create_pending) (>>-OnOk λ _. OnOk-ok _ x)
    ]

-- The activated row is one at most, and the index lets no other have the device.
module _ (reservation device : String) (time : ℕ) (rows : List ReservationRow) where
  abbrev activated : ReservationRow → ReservationRow
  activated r = record r {
    device_id = some device;
    status = ReservationStatus.active;
    starts_at = some time;
    expires_at = some (time + r.lease_seconds * second);
    updated_at = time;
  }

  abbrev claimed : ReservationRow → Bool
  claimed = is_claim reservation device

  activated-AreUnshared :
      count (occupies device) rows ≡ 0
      → AreUnshared rows
      → AreUnshared (update_where claimed activated rows)
  activated-AreUnshared free x = record {
    keyed = λ id.
        omega
          (arith, x.keyed id, count-update_same claimed (has_row id) activated rows (λ r h. refl));
    single = λ d. elim (str_eq-cases d device) [
      | inl (e, _) ↦ rw e (
          omega (
            arith,
            free,
            x.keyed reservation,
            count-update_where claimed (occupies device) activated rows,
            count_mono (both claimed (λ r. occupies device (activated r))) (has_row reservation)
                rows (λ r h. ground arith),
          ))
      | inr (n, _) ↦ omega (
        arith,
        x.single d,
        count-update_where claimed (occupies d) activated rows,
        count-none (both claimed (λ r. occupies d (activated r))) rows
            (λ r. other-occupies d n (claimed r)),
      )
    ];
  }
    where
      other-occupies : (d : String) → d ≢ device → (b : Bool) → (b && str_eq device d) ≡ false
      other-occupies d n b = elim (str_eq-cases device d) [
        | inl (e, _) ↦ absurd (n (sym e))
        | inr (_, y) ↦ ground (arith, y)
      ]

activate-IsUnshared :
    (s : Store) (reservation device session : String) (time : ℕ)
    → IsUnshared s
    → OnOk (λ t. IsUnshared t.2) (activate_claimed s reservation device session time)
unfolding activate_claimed
activate-IsUnshared s reservation device session time x = >>=-OnOk λ devices _. >>=-OnOk λ out f.
    >>-OnOk λ g. >>-OnOk λ _. >>-OnOk λ _. OnOk-ok _ (
      let (_, _, r) = update_returning-ok _ _ s.reservations _ f in
      rw r (
        activated-AreUnshared reservation device time s.reservations
          (ground (arith, guard-ok _ _ g)) x))

pub IsUnshared-Kept : Kept IsUnshared
IsUnshared-Kept = record {
  by_reserve = reserve-IsUnshared;
  by_compensate = compensate-IsUnshared;
  by_fail_claim = fail_claim-IsUnshared;
  by_fail_pending = fail_pending-IsUnshared;
  by_cancel = cancel-IsUnshared;
  by_extend = extend-IsUnshared;
  by_close = λ s r d t c g n _ _ _ na x. close-IsUnshared s r d t c g n na x;
  by_create = create-IsUnshared;
  by_activate = activate-IsUnshared;
  by_audit = λ s audits x. record { keyed = x.keyed; single = x.single };
  by_operation = λ s operations x. record { keyed = x.keyed; single = x.single };
  by_devices = λ s devices x. record { keyed = x.keyed; single = x.single };
}
