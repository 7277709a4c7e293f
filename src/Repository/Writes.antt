-- ===== src/Repository/Writes.antt =====
-- internal/repository/reservation.go: the updates. Each returns the store after it, or the error
-- with which the transaction is rolled back.
mod Updates
mod Claims
mod Sessions
mod Requests
unfoldable pub use Updates.*
unfoldable pub use Claims.*
unfoldable pub use Sessions.*
unfoldable pub use Requests.*
