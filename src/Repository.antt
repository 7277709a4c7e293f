-- ===== src/Repository.antt =====
-- internal/repository/reservation.go: the queries and updates of the reservations. A function takes
-- the store as one SQL transaction sees it; an update returns the store that the transaction leaves.
pub mod Queries
pub mod Policies
pub mod Writes
pub mod Operations
