-- ===== src/Domain.antt =====
-- internal/domain: the state machines of the resources.
pub mod Reasons
pub mod Machine
pub mod Lifecycle
pub mod Health
pub mod Device
pub mod Reservation
pub mod Command
pub mod Session
pub mod Host
pub mod Pool
pub mod Image
pub mod Tables
mod Tests
