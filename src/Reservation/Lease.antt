-- ===== src/Reservation/Lease.antt =====
-- What an extension does to the end of a lease (internal/reservation/service.go, Extend).
use alcor_device_farm.Prelude.{
  ◌⊎◌, inl, inr, Bool-cases, ℕ, ◌+◌, ◌*◌, ◌≤◌, ◌<◌, ◌≡◌, refl, true, ◌&&◌, not, String, some, arith,
  ltb, leb, ltb→lt, leb→le,
}
use alcor_device_farm.Failure.{OnOk, OnOk-ok, >>=-OnOk, >>-OnOk, guard-ok, require-ok}
use alcor_device_farm.Store.{Store, ReservationRow, second}
use alcor_device_farm.Repository.Queries.{is_active, is_null, get_reservation}
use alcor_device_farm.Repository.Policies.{PoolPolicy, get_pool_policy}
use alcor_device_farm.Repository.Writes.{extend, update_returning-ok}
use alcor_device_farm.Reservation.Close.{Outside}
use alcor_device_farm.Reservation.Extend.{next_expiry, extend_current}

-- The row that an extension returns, against the one that was there.
pub record Extended (o : Outside) (s : Store) (id : String) (seconds : ℕ) (row : ReservationRow)
    : Type 0 where
  pub current : ReservationRow
  pub policy : PoolPolicy
  pub expires : ℕ
  pub until : ℕ
  pub found : get_reservation s id ≡ some current
  pub active : is_active current ≡ true
  pub pool : get_pool_policy s current.pool_id ≡ some policy
  pub was : current.expires_at ≡ some expires
  pub running : o.clock < expires
  pub asked : seconds ≤ policy.max_lease_seconds
  pub is : row.expires_at ≡ some until
  pub in_window : until ≤ o.clock + policy.max_lease_seconds * second
  pub at_most_asked : until ≤ expires + seconds * second
  pub is_one :
      (until ≡ o.clock + policy.max_lease_seconds * second) ⊎ (until ≡ expires + seconds * second)

in_window :
    (now expires window seconds : ℕ)
    → next_expiry now expires window seconds ≤ now + window * second
unfolding next_expiry
in_window now expires window seconds = ground arith

at_most_asked :
    (now expires window seconds : ℕ)
    → next_expiry now expires window seconds ≤ expires + seconds * second
unfolding next_expiry
at_most_asked now expires window seconds = ground arith

is_one :
    (now expires window seconds : ℕ)
    → let until = next_expiry now expires window seconds in
      (until ≡ now + window * second) ⊎ (until ≡ expires + seconds * second)
unfolding next_expiry
is_one now expires window seconds =
    elim (Bool-cases (ltb (now + window * second) (expires + seconds * second))) [
      | inl e ↦ rw e (inl refl)
      | inr e ↦ rw e (inr refl)
    ]

-- An extension succeeds only for an active reservation that has not expired, and for at most the
-- pool's window; the new end is the earlier one of two, the window from now and the asked seconds
-- after the old end.
pub extend_current-Extended :
    (o : Outside) (s : Store) (id : String) (seconds : ℕ)
    → OnOk (λ t. Extended o s id seconds t.0) (extend_current o s id seconds)
unfolding extend_current extend
extend_current-Extended o s id seconds = >>=-OnOk λ current found. >>-OnOk λ active.
    >>=-OnOk λ expires was. >>-OnOk λ running. >>=-OnOk λ policy pool. >>-OnOk λ asked.
      >>=-OnOk λ out e.
        let (r, _, f) = update_returning-ok _ _ s.reservations _ e in
        OnOk-ok _ (record {
          current = current;
          policy = policy;
          expires = expires;
          until = next_expiry o.clock expires policy.max_lease_seconds seconds;
          found = require-ok (get_reservation s id) _ found;
          active =
              ground
                (arith, guard-ok (is_active current && not (is_null current.starts_at)) _ active);
          pool = require-ok (get_pool_policy s current.pool_id) _ pool;
          was = require-ok current.expires_at _ was;
          running = ltb→lt _ _ (guard-ok (ltb o.clock expires) _ running);
          asked = leb→le _ _ (guard-ok (leb seconds policy.max_lease_seconds) _ asked);
          is = rw f refl;
          in_window = in_window o.clock expires policy.max_lease_seconds seconds;
          at_most_asked = at_most_asked o.clock expires policy.max_lease_seconds seconds;
          is_one = is_one o.clock expires policy.max_lease_seconds seconds;
        })
