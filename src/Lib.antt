-- ===== src/Lib.antt =====
-- The device farm: allocation of devices to reservations.
--
-- A client asks for a device by a reservation. The scheduler (internal/scheduler) takes the oldest
-- reservation that a device can serve, reserves the device in one transaction, claims it at STF, and
-- in a second transaction activates the reservation and opens a session; when a step fails, it
-- releases the claim and compensates it. The reservation service (internal/reservation) extends and
-- releases reservations, and its reapers end those that expired, waited too long or were left in the
-- middle of a claim. All of them work on the tables of migrations/ through internal/repository, and
-- check each change of status against the machines of internal/domain. The agents of the hosts take
-- commands by leases, report what became of them, and send heartbeats with the devices that they see
-- (internal/hostcommand); a finished command and a heartbeat change the devices.
--
-- The files:
--   Domain/Machine: stateMachine of internal/domain/state_machine.go, with `transition`,
--     `record_rejected` and `new_state_machine`; Machine/Laws and Machine/Log on it.
--   Domain/Lifecycle, Health, Reservation, Command, Session, Host, Pool, Image: the statuses, the
--     tables and the entities of the other files of internal/domain. Domain/Tables on all tables.
--   Domain/Device: internal/domain/device.go, with Acceptance, Log and Timeline on it.
--   Audit: internal/audit/actor.go.
--   Failure: the errors of the packages as one type, and the result of a fallible call.
--   Store: the rows of the tables, in a record; Store/Rows is SELECT and UPDATE on a list of rows,
--     Store/Order is ORDER BY with LIMIT 1, and Store/Lookup is about a row found before and after.
--   Repository/Queries, Policies, Writes, Operations: the methods of ReservationRepository in
--     internal/repository/reservation.go (LockNextAllocatablePending is
--     `lock_next_allocatable_pending`, CompensateClaim is `compensate_claim`, and so on).
--   Scheduler: RunOnce of internal/scheduler/scheduler.go as `run_once`, made of `claim` (its first
--     transaction), `activate` (its last), and `compensated`; Scheduler/Order, Recovery,
--     Compensation and Safety on it.
--   Reservation/Close, Extend, Release, Reap: closeActiveLocked, Extend, Release, ReapOnce,
--     ReapStalePendingOnce and ReapOrphanedClaimOnce of internal/reservation/service.go;
--     Reservation/Lease, Freed and Safety on them.
--   Reaper: RunOnce, RunPendingOnce, RunOrphanedClaimOnce and the loops of internal/reaper/reaper.go;
--     Reaper/Progress and Termination on them.
--   Paging: New, Limit and Offset of internal/paging/page.go, and the window of a list that SQL makes
--     of them; Paging/Coverage on it.
--   HostCommand/Table: internal/repository/command.go, one function per statement on the table
--     device_host_commands (ClaimNext is `claim_next`, RecoverExpiredLease is
--     `recover_expired_lease`, and so on). HostCommand/Service and Polling: Create, Complete, Extend,
--     RecoverExpiredOnce, RunLeaseRecovery and Claim of internal/hostcommand/service.go.
--     HostCommand/Moves is the life of a command as a relation, the specification that
--     HostCommand/Implements and Steps are about; Lifetime, Fencing, Queue, Batch, Waiting, Replay
--     and Recovery rest on it. HostCommand/Marks adds the one UPDATE of the table from elsewhere, the
--     mark on a finished scale-down in internal/warmpool/controller.go.
--   Fleet: the devices in internal/hostcommand/service.go. Fleet/Recovery is recoverFromHostOutage and
--     applyDiscoveredLifecycle, Fleet/Discovery is updateDiscoveredDevice, Fleet/Operation is
--     reconcileManagementOperation with Outcome (its shared parts), Kinds (start, stop, delete) and
--     Replacements (reimage and update of the profile), Fleet/Readiness is the part of Heartbeat
--     that decides on the status of the host, Fleet/Missing is quarantineMissingIOSDevices, and
--     Fleet/Heartbeat is the validation of the devices of a heartbeat. Fleet/Entity and Trail are lemmas on the entity.
--   Domain/Reasons: internal/domain/health_reason.go. Sensitive: internal/sensitive/sensitive.go.
--     Json: JSON values, and jsonEquivalent of internal/repository/errors.go.
--   Kept: an interface, a property of the store that every update of the repository keeps. Unshared,
--     Paired and System/Creation have such properties. System runs the transactions of the scheduler,
--     the reservation service and the reaper in any order; its step `others` changes the devices in
--     any way, for the heartbeats, the reconciler, the warm pool and management, which may make a device
--     ready while a reservation is active on it.
--
-- How it is modelled. A transaction is a function from the store to a result with the next store;
-- an error rolls it back. Transactions are serialised: what one of them locks, no other changes,
-- and rows that are skipped because they are locked are given by an argument. Between the
-- transactions of one call others may run, and so each transaction is a step of its own in System.
-- A time is a number of microseconds, and 0 in the machines is Go's zero time; there is no bound on
-- a time or a count but in Paging, where a page number, a size and an offset have 64 bits. A clock,
-- a generated id, the answers of STF and Appium, the hash of a request and the redaction of texts
-- (which rest on JSON, SHA-256 and regular expressions) are arguments. A JSON column is the record
-- of what the queries read of it; the equality of capabilities is an argument. The CHECK
-- constraints on the id, the owner and the lease of a new reservation are those of migrations/. The
-- loops of the reaper run on fuel, one more than the reservations that they can end, which
-- Reaper/Termination shows to be enough. The rounds of Claim and the turns of RunLeaseRecovery run
-- on fuel too and are numbered by it, the last one by 0: a claim needs one more than the number of
-- a round in which its wait is over (HostCommand/Waiting), a recovery one more than the leased
-- commands (HostCommand/Recovery). Every other function is structural.
--
-- A change of a command and what reconcileManagementOperation makes of it are one transaction. The
-- table of the commands knows the second as an argument, `Reconcile`: an error, or the commands that
-- it creates; internal/imagecatalog, which creates them, is not modelled. Fleet/Operation is the rest
-- of it, on the row of the device. What encoding/json reads from the result of a command,
-- strings.ToLower, strings.EqualFold and the regular expressions are arguments. A JSON object is a list
-- of fields with distinct names, and a JSON number is the canonical text of its float64.
--
-- Not modelled: creation of a reservation beyond the insert (its validation, the pool selector,
-- targeted reservations), the STF remote session, the timers of the scheduler and the reaper. Of a
-- heartbeat, the capacity of the host and its session fence, and the default base device of a pool;
-- of a lookup of a device, the query itself, whose row is an argument. The reconciler, the warm
-- pool apart from its mark, management, iOS sessions, capacity, and all that is input and output:
-- the HTTP interface, the console, the agent, the providers and adapters.
pub mod HostCommand
pub mod Fleet
pub mod Json
pub mod Sensitive
pub mod Prelude
pub mod Text
pub mod Domain
pub mod Failure
pub mod Store
pub mod Repository
pub mod Kept
pub mod Unshared
pub mod Audit
pub mod Scheduler
pub mod Reservation
pub mod Paired
pub mod Reaper
pub mod Paging
pub mod System
