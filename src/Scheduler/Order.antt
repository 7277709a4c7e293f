-- ===== src/Scheduler/Order.antt =====
-- The order in which reservations are served: internal/repository/reservation.go,
-- LockNextAllocatablePending, which a round of the scheduler starts with.
use alcor_device_farm.Prelude.{ℕ, Bool, ◌&&◌, not, String, Option, arith}
use alcor_device_farm.Store.{Store, ReservationRow}
use alcor_device_farm.Store.Order.{IsEarliest, least-IsEarliest}
use alcor_device_farm.Repository.Queries.{lock_next_allocatable_pending, is_candidate, precedes}

abbrev pub unlocked_candidate : Store → ℕ → (String → Bool) → ReservationRow → Bool
unlocked_candidate s clock locked r = is_candidate s clock r && not (locked r.id)

abbrev pub IsFirst : Store → ℕ → (String → Bool) → Option ReservationRow → Type 0
IsFirst s clock locked o =
    IsEarliest (unlocked_candidate s clock locked) (λ x. x.created_at) s.reservations o

-- The reservation that a round of the scheduler takes waits for a device that can be allocated, is
-- locked by no other transaction, and was created no later than any other such reservation; there is
-- none only if there is no such reservation.
pub lock_next-IsFirst :
    (s : Store) (clock : ℕ) (locked : String → Bool)
    → IsFirst s clock locked (lock_next_allocatable_pending s clock locked)
unfolding lock_next_allocatable_pending
lock_next-IsFirst s clock locked =
    least-IsEarliest (λ a b. precedes a.created_at a.id b.created_at b.id) _ _ s.reservations
      (λ a b h. ground arith) (λ a b h. ground arith)
