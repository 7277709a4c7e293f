-- ===== src/Reservation/Extend.antt =====
-- internal/reservation/service.go: Extend, which moves the end of an active reservation.
use alcor_device_farm.Prelude.{ℕ, ◌+◌, ◌*◌, Bool, ◌&&◌, not, String, leb, ltb, if◌then◌else◌}
use alcor_device_farm.Text.{size, is_identifier}
use alcor_device_farm.Audit.{Actor, valid_actor}
use alcor_device_farm.Failure.{
  Result, ok, ◌>>=◌, ◌>>◌, guard, require, not_found, conflict, invalid_argument,
}
use alcor_device_farm.Store.{Store, ReservationRow, OperationRow, second}
use alcor_device_farm.Repository.Queries.{is_active, is_null, get_reservation}
use alcor_device_farm.Repository.Policies.{get_pool_policy}
use alcor_device_farm.Repository.Operations.{begin_operation}
use alcor_device_farm.Repository.Writes.{extend}
use alcor_device_farm.Reservation.Close.{Outside, extension, translate}

abbrev pub valid_key : String → Bool
valid_key key = leb 8 (size key) && leb (size key) 128

-- the record of an extension
abbrev pub extend_operation : Outside → Actor → String → String → ℕ → OperationRow
extend_operation o actor key id seconds = record {
  client_id = actor.client_id;
  scope = "extend_device_reservation";
  idempotency_key = key;
  request_hash = o.hash (extension id seconds);
  resource_type = "device_reservation";
  resource_id = id;
}

-- The new end: `expires` and the additional seconds, but at most the pool's window from now on.
unfoldable pub next_expiry : ℕ → ℕ → ℕ → ℕ → ℕ
next_expiry now expires window seconds =
    let maximum = now + window * second in
    let next = expires + seconds * second in if ltb maximum next then maximum else next

-- the extension itself, of a request that is no replay
unfoldable pub extend_current : Outside → Store → String → ℕ → Result (ReservationRow × Store)
unfolding next_expiry
extend_current o s id seconds = do
  current ← require (get_reservation s id) not_found
  guard (is_active current && not (is_null current.starts_at)) conflict
  expires ← require current.expires_at conflict
  guard (ltb o.clock expires) conflict
  policy ← require (get_pool_policy s current.pool_id) not_found
  guard (leb seconds policy.max_lease_seconds) invalid_argument
  extend s id (next_expiry o.clock expires policy.max_lease_seconds seconds) o.clock

-- the transaction
unfoldable pub extend_tx :
    Outside → Store → Actor → String → String → ℕ → Result (ReservationRow × Store)
unfolding extend_current
extend_tx o s actor key id seconds = do
  (replay, t) ← begin_operation s (extend_operation o actor key id seconds)
  let again = require (get_reservation t id) not_found >>= λ current. ok (current, t)
  if replay then again else extend_current o t id seconds

-- Extend
unfoldable pub extend_reservation :
    Outside → Store → Actor → String → String → ℕ → Result (ReservationRow × Store)
unfolding extend_tx
extend_reservation o s actor key id seconds = do
  guard (valid_actor actor && valid_key key && is_identifier id && leb 60 seconds) invalid_argument
  translate (extend_tx o s actor key id seconds)
