-- ===== src/Domain/Machine/Laws.antt =====
-- What a call of `transition` does, on every branch.
use alcor_device_farm.Prelude.{
  ◌⊎◌, inl, inr, Option-cases, ℕ, ◌≡◌, ◌≢◌, ◌↔◌, true, false, String, none, arith, length,
  length-append, ◌≤◌, ◌+◌, refl, ◌==◌,
}
use alcor_device_farm.Text.{trim_space, is_empty}
use alcor_device_farm.Domain.Machine.{Status, StateMachine, accept, transition, permits}

module _ {S : Type 0} ⦃st : Status S⦄ where
  -- what a call needs to be accepted
  pub record Accepts (m : StateMachine S) (to : S) (reason : String) (time : ℕ) : Type 0 where
    pub known : m.valid to ≡ true
    pub explained : is_empty (trim_space reason) ≡ false
    pub dated : time ≢ 0
    pub permitted : permits m.transitions m.status to ≡ true

  -- A call of `transition` is accepted exactly when the wanted status is known, the trimmed reason
  -- is not empty, the time is not zero and the table has the edge.
  pub transition-none_iff :
      (m : StateMachine S) (to : S) (reason : String) (time : ℕ)
      → ((transition m to reason time).1 ≡ none) ↔ Accepts m to reason time
  unfolding transition
  transition-none_iff m to reason time = (λ e. ground arith, λ a. ground arith)

  -- A call either is accepted, moves to the wanted status and records one event, or ends with an
  -- error, keeps the status, and records at most one event.
  pub transition_effect :
      (m : StateMachine S) (to : S) (reason : String) (time : ℕ)
      → let (n, e) = transition m to reason time in
        ((e ≡ none) × (n.status ≡ to) × (length n.events ≡ length m.events + 1))
        ⊎ ((e ≢ none) × (n.status ≡ m.status) × (length n.events ≤ length m.events + 1))
  unfolding transition
  transition_effect m to reason time = elim (Option-cases (transition m to reason time).1) [
    | inl e ↦ inl (e, grind (arith, length-append), grind (arith, length-append))
    | inr (x, e) ↦ inr (λ f. cc, grind (arith, length-append), grind (arith, length-append))
  ]

-- the machine after an accepted call
pub transition-accept :
    {S : Type 0} ⦃st : Status S⦄ (m : StateMachine S) (to : S) (reason : String) (time : ℕ)
    → m.valid to ≡ true
    → is_empty (trim_space reason) ≡ false
    → time ≢ 0
    → permits m.transitions m.status to ≡ true
    → transition m to reason time ≡ (accept m to reason time, none)
unfolding transition
transition-accept m to reason time v r n p =
    let t : (time == 0) ≡ false = ground arith in rw (v, transition) (rw r (rw t (rw p refl)))
