-- ===== src/Repository/Writes/Requests.antt =====
-- internal/repository/reservation.go: the updates of a reservation alone, its creation, and the
-- audit events.
use alcor_device_farm.Prelude.{
  ℕ, Bool, ◌&&◌, ◌||◌, not, String, none, some, [], ◌∷◌, ◌++◌, str_eq, ◌==◌, any, true, leb,
  if◌then◌else◌,
}
use Prim.Native.Char.{code}
use alcor_device_farm.Text.{is_identifier, count}
use alcor_device_farm.Failure.{
  Result, ok, ◌>>=◌, ◌>>◌, guard, not_found, idempotency_conflict, unique_violation,
  check_violation, foreign_key_violation,
}
use alcor_device_farm.Domain.Reservation.{ReservationStatus}
use alcor_device_farm.Store.{Store, ReservationRow, AuditRow, RequestedCapabilities}
use alcor_device_farm.Store.Rows.{find_row}
use alcor_device_farm.Repository.Queries.{is_active, is_waiting}
use alcor_device_farm.Repository.Writes.Updates.{update_one, update_returning}

-- FailPendingReservation
unfoldable pub fail_pending_reservation : Store → String → String → ℕ → Result Store
fail_pending_reservation s reservation code time = do
  reservations ←
      update_one (λ r. str_eq r.id reservation && is_waiting r)
        (λ r. record r {
          status = ReservationStatus.failed;
          failure_code = some code;
          updated_at = time;
        })
        s.reservations not_found
  ok (record s { reservations = reservations })

-- CancelPending
unfoldable pub cancel_pending : Store → String → String → ℕ → Result (ReservationRow × Store)
cancel_pending s reservation code time = do
  (row, reservations) ←
      update_returning (λ r. str_eq r.id reservation && is_waiting r)
        (λ r. record r {
          status = ReservationStatus.failed;
          failure_code = some code;
          updated_at = time;
        })
        s.reservations not_found
  ok (row, record s { reservations = reservations })

-- Extend
unfoldable pub extend : Store → String → ℕ → ℕ → Result (ReservationRow × Store)
extend s reservation expires clock = do
  (row, reservations) ←
      update_returning (λ r. str_eq r.id reservation && is_active r)
        (λ r. record r { expires_at = some expires; updated_at = clock }) s.reservations not_found
  ok (row, record s { reservations = reservations })

-- InsertAudit; `redact` is sensitive.RedactText.
unfoldable pub insert_audit : (String → String) → Store → AuditRow → Result Store
insert_audit redact s a = do
  guard (not (any (λ b. str_eq b.id a.id) s.audits)) unique_violation
  ok (record s { audits = s.audits ++ record a { reason = redact a.reason } ∷ [] })

-- CreateReservationParams
pub record CreateReservationParams : Type 0 where
  pub id : String
  pub client_id : String
  pub pool_id : String
  pub owner_type : String
  pub owner_id : String
  pub requested_capabilities : RequestedCapabilities
  pub lease_seconds : ℕ
  pub idempotency_key : String

abbrev pub has_key : String → String → ReservationRow → Bool
has_key client key r = str_eq r.client_id client && str_eq r.idempotency_key key

-- sameReservationRequest; `same` is jsonEquivalent on the capabilities.
unfoldable pub same_reservation_request :
    (RequestedCapabilities → RequestedCapabilities → Bool)
    → ReservationRow
    → CreateReservationParams
    → Bool
same_reservation_request same r p =
    str_eq r.client_id p.client_id
    && str_eq r.pool_id p.pool_id
    && str_eq r.owner_type p.owner_type
    && str_eq r.owner_id p.owner_id
    && r.lease_seconds == p.lease_seconds
    && str_eq r.idempotency_key p.idempotency_key
    && same r.requested_capabilities p.requested_capabilities

abbrev pub pending_row : CreateReservationParams → ℕ → ReservationRow
pending_row p clock = record {
  id = p.id;
  client_id = p.client_id;
  pool_id = p.pool_id;
  device_id = none;
  owner_type = p.owner_type;
  owner_id = p.owner_id;
  requested_capabilities = p.requested_capabilities;
  lease_seconds = p.lease_seconds;
  status = ReservationStatus.pending;
  idempotency_key = p.idempotency_key;
  starts_at = none;
  expires_at = none;
  released_at = none;
  failure_code = none;
  created_at = clock;
  updated_at = clock;
}

-- [A-Za-z0-9_.@-]
is_owner_char : ℕ → Bool
is_owner_char c =
    (leb b'A' c && leb c b'Z')
    || (leb b'a' c && leb c b'z')
    || (leb b'0' c && leb c b'9')
    || c == b'_'
    || c == b'.'
    || c == b'@'
    || c == b'-'

all_owner_chars : String → Bool
unfolding is_owner_char
all_owner_chars String.[] = true
all_owner_chars (String.◌∷◌ c s) = is_owner_char (code c) && all_owner_chars s

-- The CHECK constraints on an inserted row, as the migrations leave them.
unfoldable pub satisfies_checks : CreateReservationParams → Bool
unfolding all_owner_chars
satisfies_checks p =
    is_identifier p.id
    && (str_eq p.owner_type "run_attempt"
        || str_eq p.owner_type "manual"
        || str_eq p.owner_type "test_run")
    && (if str_eq p.owner_type "manual"
        then leb 1 (count p.owner_id) && leb (count p.owner_id) 64 && all_owner_chars p.owner_id
        else is_identifier p.owner_id)
    && leb 60 p.lease_seconds

-- CreatePending: the row with the client's key, or else a new one.
unfoldable pub create_pending :
    (RequestedCapabilities → RequestedCapabilities → Bool)
    → Store
    → CreateReservationParams
    → ℕ
    → Result (ReservationRow × Store)
unfolding same_reservation_request satisfies_checks
create_pending same s p clock = do
  guard (satisfies_checks p) check_violation
  elim (find_row (has_key p.client_id p.idempotency_key) s.reservations) [
    | some r ↦ do guard (same_reservation_request same r p) idempotency_conflict; ok (r, s)
    | none ↦ do
      let row = pending_row p clock
      guard (not (any (λ r. str_eq r.id p.id) s.reservations)) unique_violation
      guard (any (λ pool. str_eq pool.id p.pool_id) s.pools) foreign_key_violation
      guard (same_reservation_request same row p) idempotency_conflict
      ok (row, record s { reservations = s.reservations ++ row ∷ [] })
  ]
