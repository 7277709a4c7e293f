-- ===== src/Domain/Tables.antt =====
-- Facts of the transition tables of internal/domain.
use alcor_device_farm.Prelude.{◌≡◌, refl, Bool, true, false, Option, List, arith}
use alcor_device_farm.Domain.Machine.{Status, StateMachine, has_key, permits}
use alcor_device_farm.Domain.Machine.Log.{Request, run, run-stays}
use alcor_device_farm.Domain.Lifecycle.{lifecycle_status, device_transitions}
use alcor_device_farm.Domain.Health.{health_status, health_transitions}
use alcor_device_farm.Domain.Reservation.{
  ReservationStatus, reservation_status, reservation_transitions,
}
use alcor_device_farm.Domain.Command.{command_status, command_transitions}
use alcor_device_farm.Domain.Session.{session_status, session_transitions}
use alcor_device_farm.Domain.Host.{host_status, host_transitions}
use alcor_device_farm.Domain.Pool.{pool_status, pool_transitions}
use alcor_device_farm.Domain.Image.{image_status, image_transitions}

-- every successor in the table is itself a status of the table, other than the one it follows
abbrev pub IsClosed : {S : Type 0} ⦃st : Status S⦄ → (S → Option (List S)) → Type 0
IsClosed {S} ⦃st⦄ table =
    (a b : S) → permits table a b ≡ true → (has_key table b ≡ true) × (st.same a b ≡ false)

-- In each of the eight tables every successor is a status of the table, and no status follows
-- itself.
pub tables-IsClosed :
    IsClosed device_transitions
    × IsClosed health_transitions
    × IsClosed reservation_transitions
    × IsClosed command_transitions
    × IsClosed session_transitions
    × IsClosed host_transitions
    × IsClosed pool_transitions
    × IsClosed image_transitions
tables-IsClosed = (
  λ a b h. ground arith,
  λ a b h. ground arith,
  λ a b h. ground arith,
  λ a b h. ground arith,
  λ a b h. ground arith,
  λ a b h. ground arith,
  λ a b h. ground arith,
  λ a b h. ground arith,
)

abbrev pub is_terminal : ReservationStatus → Bool
is_terminal ReservationStatus.pending = false
is_terminal ReservationStatus.active = false
is_terminal _ = true

terminal-stuck :
    (s b : ReservationStatus) → is_terminal s ≡ true → permits reservation_transitions s b ≡ false
terminal-stuck ReservationStatus.pending b h = cc
terminal-stuck ReservationStatus.active b h = cc
terminal-stuck _ b h = refl

-- A reservation machine at a status other than `pending` and `active` keeps that status, whatever
-- calls follow.
pub terminal_reservation-stays :
    (m : StateMachine ReservationStatus) (rs : List (Request ReservationStatus))
    → m.transitions ≡ reservation_transitions
    → is_terminal m.status ≡ true
    → (run m rs).status ≡ m.status
terminal_reservation-stays m rs t h =
    run-stays m m.status reservation_transitions rs (λ b. terminal-stuck m.status b h) t refl
