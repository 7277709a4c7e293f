-- ===== src/Repository/Operations.antt =====
-- internal/repository/reservation.go: the idempotency records of operations, and the sessions.
use alcor_device_farm.Prelude.{
  Bool, true, false, ◌&&◌, not, String, Option, none, some, [], ◌∷◌, ◌++◌, str_eq, if◌then◌else◌,
}
use alcor_device_farm.Failure.{Result, ok, err, idempotency_conflict}
use alcor_device_farm.Store.{Store, OperationRow, SessionRow}
use alcor_device_farm.Store.Rows.{find_row}

-- the primary key of device_idempotency_records
abbrev pub same_operation : OperationRow → OperationRow → Bool
same_operation p q =
    str_eq q.client_id p.client_id
    && str_eq q.scope p.scope
    && str_eq q.idempotency_key p.idempotency_key

-- is it the request that was recorded?
abbrev pub same_request : OperationRow → OperationRow → Bool
same_request p q =
    str_eq q.request_hash p.request_hash
    && str_eq q.resource_type p.resource_type
    && str_eq q.resource_id p.resource_id

-- BeginOperation: `true` for a replay, and otherwise the operation is recorded.
unfoldable pub begin_operation : Store → OperationRow → Result (Bool × Store)
begin_operation s p = elim (find_row (same_operation p) s.operations) [
  | none ↦ ok (false, record s { operations = s.operations ++ p ∷ [] })
  | some q ↦ if not (same_request p q) then err idempotency_conflict else ok (true, s)
]

-- CheckOperation
unfoldable pub check_operation : Store → OperationRow → Result Bool
check_operation s p = elim (find_row (same_operation p) s.operations) [
  | none ↦ ok false
  | some q ↦ if not (same_request p q) then err idempotency_conflict else ok true
]

-- LockSession and GetSession
unfoldable pub get_session : Store → String → Option SessionRow
get_session s reservation = find_row (λ x. str_eq x.reservation_id reservation) s.sessions
