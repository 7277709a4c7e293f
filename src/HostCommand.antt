-- ===== src/HostCommand.antt =====
-- The commands of the hosts: internal/repository/command.go and internal/hostcommand/service.go.
pub mod Table
pub mod Moves
pub mod Service
pub mod Implements
pub mod Steps
pub mod Lifetime
pub mod Marks
pub mod Fencing
pub mod Queue
pub mod Polling
pub mod Batch
pub mod Waiting
pub mod Replay
pub mod Recovery
mod Tests
