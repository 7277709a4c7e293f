-- ===== src/Failure.antt =====
-- The errors of internal/repository, internal/reservation and internal/scheduler, the result of a
-- fallible call, and a rule for proofs about the calls that succeed.
use alcor_device_farm.Prelude.{
  ◌≡◌, ◌⊎◌, inl, inr, refl, ap, subst, arith, Bool, true, false, Option, none, some, if◌then◌else◌,
}
use alcor_device_farm.Domain.Machine

pub data Error : Type 0 where
  not_found idempotency_conflict capacity_unavailable pool_unavailable : Error
  invalid_argument conflict forbidden nothing_to_reap no_pending_reservation : Error
  stf_claim_failed stf_release_failed ios_session_cleanup_failed : Error
  -- a PRIMARY KEY or UNIQUE constraint of the database
  unique_violation : Error
  -- a CHECK constraint, and a FOREIGN KEY
  check_violation foreign_key_violation : Error
  -- the lease of a host command is another one, or over
  lease_conflict : Error
  -- there is no host command to claim or to recover
  no_command : Error
  -- a discovered device is another one than the registered one
  device_identity_conflict : Error
  -- the context of the call ended
  canceled : Error
  -- the id generator failed
  no_id : Error
  domain : Machine.Error → Error

pub data Result (A : Type 0) : Type 0 where
  ok : A → Result A
  err : Error → Result A

infixl 5 ◌>>=◌ ◌>>◌
unfoldable pub ◌>>=◌ : {A B : Type 0} → Result A → (A → Result B) → Result B
ok a >>= f = f a
err e >>= f = err e

abbrev pub ◌>>◌ : {B : Type 0} → Result (Unit {0}) → Result B → Result B
m >> k = m >>= λ _. k

unfoldable pub guard : Bool → Error → Result (Unit {0})
guard true e = ok tt
guard false e = err e

unfoldable pub require : {A : Type 0} → Option A → Error → Result A
require none e = err e
require (some a) e = ok a

-- a call of the domain's machines: the new entity, or its error
unfoldable pub checked : {A : Type 0} → A × Option Machine.Error → Result A
checked (a, none) = ok a
checked (a, some e) = err (domain e)

unfoldable pub from_domain : {A : Type 0} → Machine.Result A → Result A
from_domain (Machine.ok a) = ok a
from_domain (Machine.err e) = err (domain e)

-- Whatever a successful call returns satisfies `P`.
pub record OnOk {A : Type 0} (P : A → Type 0) (r : Result A) : Type 0 where
  pub apply : (a : A) → r ≡ ok a → P a

ok_or : {A : Type 0} → A → Result A → A
ok_or d (ok b) = b
ok_or d (err e) = d

pub OnOk-ok : {A : Type 0} {P : A → Type 0} (a : A) → P a → OnOk P (ok a)
unfolding ok_or
OnOk-ok {P} a h = record { apply = λ b e. subst P (ap (ok_or a) e) h }

pub OnOk-err : {A : Type 0} {P : A → Type 0} (e : Error) → OnOk P (err e)
OnOk-err e = record { apply = λ b p. cc }

pub OnOk-imp :
    {A : Type 0} (P Q : A → Type 0) (r : Result A) → ((a : A) → P a → Q a) → OnOk P r → OnOk Q r
OnOk-imp P Q r f h = record { apply = λ a e. f a (h.apply a e) }

bind_cases :
    {A B : Type 0} (P : B → Type 0) (m : Result A) (f : A → Result B)
    → ((a : A) → m ≡ ok a → OnOk P (f a))
    → OnOk P (m >>= f)
unfolding ◌>>=◌
bind_cases P (ok a) f h = h a refl
bind_cases P (err e) f h = OnOk-err e

pub >>=-OnOk :
    {A B : Type 0} {P : B → Type 0} {m : Result A} {f : A → Result B}
    → ((a : A) → m ≡ ok a → OnOk P (f a))
    → OnOk P (m >>= f)
>>=-OnOk {P} {m} {f} h = bind_cases P m f h

-- the rule for a step of which something is known
pub >>=-chain :
    {A B : Type 0} {P : A → Type 0} {Q : B → Type 0} {m : Result A} {f : A → Result B}
    → OnOk P m
    → ((a : A) → P a → OnOk Q (f a))
    → OnOk Q (m >>= f)
>>=-chain h k = >>=-OnOk λ a e. k a (h.apply a e)

-- the rule for a test
pub if-OnOk :
    {A : Type 0} {P : A → Type 0} (test : Bool) {m n : Result A}
    → OnOk P m
    → OnOk P n
    → OnOk P (if test then m else n)
if-OnOk true m n = m
if-OnOk false m n = n

-- the rule for a step whose value is not used
pub >>-OnOk :
    {B : Type 0} {P : B → Type 0} {m : Result (Unit {0})} {k : Result B}
    → (m ≡ ok tt → OnOk P k)
    → OnOk P (m >> k)
>>-OnOk h = >>=-OnOk λ u e. h e

pub guard-ok : (b : Bool) (e : Error) → guard b e ≡ ok tt → b ≡ true
unfolding guard
guard-ok b e h = ground arith

pub require-ok : {A : Type 0} {a : A} (o : Option A) (e : Error) → require o e ≡ ok a → o ≡ some a
unfolding require
require-ok o e h = ground arith

pub Result-cases :
    {A : Type 0} (r : Result A) → ((a : A) × (r ≡ ok a)) ⊎ ((e : Error) × (r ≡ err e))
Result-cases (ok a) = inl (a, refl)
Result-cases (err e) = inr (e, refl)

-- The call succeeds, and what it returns satisfies `P`.
pub record Yields {A : Type 0} (P : A → Type 0) (r : Result A) : Type 0 where
  pub value : A
  pub returned : r ≡ ok value
  pub holds : P value

pub Yields-ok : {A : Type 0} {P : A → Type 0} (a : A) → P a → Yields P (ok a)
Yields-ok a p = record { value = a; returned = refl; holds = p }

pub >>=-Yields :
    {A B : Type 0} {P : A → Type 0} {Q : B → Type 0} {m : Result A} {f : A → Result B}
    → Yields P m
    → ((a : A) → P a → Yields Q (f a))
    → Yields Q (m >>= f)
unfolding ◌>>=◌
>>=-Yields {Q} {f} y h = rw (y.returned) (h y.value y.holds)

pub checked-ok :
    {A : Type 0} (p : A × Option Machine.Error) {a : A}
    → checked p ≡ ok a
    → (p.1 ≡ none) × (p.0 ≡ a)
unfolding checked
checked-ok (b, none) e = (refl, ground arith)
checked-ok (b, some x) e = cc
