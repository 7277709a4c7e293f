-- ===== src/Domain/Reservation.antt =====
-- internal/domain/reservation.go: the statuses of a reservation and the entity over the machine.
use alcor_device_farm.Prelude.{
  ℕ, ◌≡◌, ◌↔◌, Bool, true, false, String, Option, none, List, [], ◌∷◌, arith, str_eq, eq_iff,
}
use alcor_device_farm.Domain.Machine.{
  Status, StateMachine, Error, Result, ok, err, allowed, has_key, new_state_machine, transition,
}

pub data ReservationStatus : Type 0 where
  pending active released failed expired force_released : ReservationStatus
  other : String → ReservationStatus

-- The string of a status.
abbrev pub reservation_name : ReservationStatus → String
reservation_name pending = "pending"
reservation_name active = "active"
reservation_name released = "released"
reservation_name failed = "failed"
reservation_name expired = "expired"
reservation_name force_released = "force_released"
reservation_name (other s) = s

abbrev pub reservation_same : ReservationStatus → ReservationStatus → Bool
reservation_same pending pending = true
reservation_same active active = true
reservation_same released released = true
reservation_same failed failed = true
reservation_same expired expired = true
reservation_same force_released force_released = true
reservation_same (other s) (other t) = str_eq s t
reservation_same _ _ = false

pub reservation_same_iff : (a b : ReservationStatus) → (reservation_same a b ≡ true) ↔ (a ≡ b)
reservation_same_iff (other s) (other t) = ground (arith, eq_iff s t)
reservation_same_iff _ _ = ground arith

instance abbrev pub reservation_status : Status ReservationStatus
reservation_status = record {
  name = reservation_name;
  same = reservation_same;
  same_iff = reservation_same_iff;
}

abbrev pub reservation_transitions : ReservationStatus → Option (List ReservationStatus)
reservation_transitions pending = allowed (active ∷ failed ∷ [])
reservation_transitions active = allowed (released ∷ expired ∷ force_released ∷ [])
reservation_transitions released = allowed ([])
reservation_transitions failed = allowed ([])
reservation_transitions expired = allowed ([])
reservation_transitions force_released = allowed ([])
reservation_transitions (other s) = none

unfoldable pub valid_reservation : ReservationStatus → Bool
valid_reservation status = has_key reservation_transitions status

pub record Reservation : Type 0 where
  pub state : StateMachine ReservationStatus

unfoldable pub restore_reservation : String → ReservationStatus → Result Reservation
unfolding valid_reservation new_state_machine
restore_reservation id status =
    elim (new_state_machine "device_reservation" id "status" status valid_reservation
      reservation_transitions) [ ok m ↦ ok (record { state = m }) | err e ↦ err e ]

unfoldable pub transition_reservation :
    Reservation → ReservationStatus → String → ℕ → Reservation × Option Error
unfolding transition
transition_reservation r to reason time =
    let (m, e) = transition r.state to reason time in (record { state = m }, e)
