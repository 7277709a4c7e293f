-- ===== src/Reservation.antt =====
-- internal/reservation/service.go: the transactions of the reservation service, and the calls of
-- STF and of Appium around them.
pub mod Close
pub mod Extend
pub mod Release
pub mod Reap
pub mod Safety
pub mod Lease
pub mod Freed
