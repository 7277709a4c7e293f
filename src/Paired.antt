-- ===== src/Paired.antt =====
-- A reservation is active exactly while it has an active session: the invariant, and that each
-- update of the repository keeps it.
pub mod Updates
pub mod Activation
use alcor_device_farm.Prelude.{
  ℕ, ◌+◌, ◌≤◌, ◌≡◌, ◌≢◌, refl, inl, inr, Bool, true, false, ◌&&◌, not, String, List, [], ◌∷◌, arith,
  str_eq, eq_iff, any,
}
use alcor_device_farm.Domain.Session.{SessionStatus}
use alcor_device_farm.Store.{Store, ReservationRow, SessionRow}
use alcor_device_farm.Store.Rows.{update_where, count, both, count-update_where, count-update_same}
use alcor_device_farm.Repository.Queries.{is_active}
use alcor_device_farm.Repository.Writes.{has_session}

abbrev pub has_row : String → ReservationRow → Bool
has_row id r = str_eq r.id id

abbrev pub active_row : String → ReservationRow → Bool
active_row id r = str_eq r.id id && is_active r

-- No id is twice among the reservations, and as many reservations as sessions are active under it.
pub record Matched (reservations : List ReservationRow) (sessions : List SessionRow) : Type 0 where
  pub keyed : (id : String) → count (has_row id) reservations ≤ 1
  pub matched :
      (id : String)
      → count (active_row id) reservations ≡ count (has_session id SessionStatus.active) sessions

abbrev pub IsPaired : Store → Type 0
IsPaired s = Matched s.reservations s.sessions

-- an update that keeps the ids, and whether a reservation is active
pub update-Matched :
    (p : ReservationRow → Bool) (f : ReservationRow → ReservationRow) (rows : List ReservationRow)
    (sessions : List SessionRow)
    → ((r : ReservationRow) → (f r).id ≡ r.id)
    → ((r : ReservationRow) → p r ≡ true → is_active (f r) ≡ is_active r)
    → Matched rows sessions
    → Matched (update_where p f rows) sessions
update-Matched p f rows sessions ids same x = record {
  keyed =
      λ id. omega (arith, x.keyed id, count-update_same p (has_row id) f rows (λ r h. rw (ids r)));
  matched = λ id. omega (
    arith,
    x.matched id,
    count-update_same p (active_row id) f rows (λ r h. rw (ids r, same r h)),
  );
}

pub count-any : {R : Type 0} (p : R → Bool) (rows : List R) → any p rows ≡ false → count p rows ≡ 0
unfolding count
count-any p [] h = refl
count-any p (r ∷ rs) h = ground (arith, count-any p rs)
