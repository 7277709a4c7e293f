-- ===== src/Domain/Machine/Log.antt =====
-- The events that a machine records, over any series of calls of `transition`.
use alcor_device_farm.Prelude.{
  ℕ, ◌≡◌, refl, inl, inr, true, false, String, Option, List, [], ◌∷◌, ◌++◌, arith, ◌∙◌, ◌==◌,
  Bool-cases,
}
use alcor_device_farm.Text.{trim_space, is_empty}
use alcor_device_farm.Domain.Machine.{
  Status, StateMachine, TransitionEvent, transition, permits, record_rejected, accept,
}

-- One call: the wanted status, the reason and the time.
pub record Request (S : Type 0) : Type 0 where
  pub to : S
  pub reason : String
  pub time : ℕ

module _ {S : Type 0} ⦃st : Status S⦄ where
  abbrev pub call : StateMachine S → Request S → StateMachine S
  call m r = (transition m r.to r.reason r.time).0

  unfoldable pub run : StateMachine S → List (Request S) → StateMachine S
  run m [] = m
  run m (r ∷ rs) = run (call m r) rs

  -- `Log table s es t`: the events lead from the status `s` to `t`. Each one starts at the status
  -- that the ones before it lead to, and only an accepted one moves, along the table.
  pub data Log (table : S → Option (List S)) (s : S) : List TransitionEvent → S → Type 0 where
    start : Log table s [] s
    moved :
        {es : List TransitionEvent} {a : S} (e : TransitionEvent) (b : S)
        → Log table s es a
        → permits table a b ≡ true
        → e.from ≡ st.name a
        → e.to ≡ st.name b
        → e.accepted ≡ true
        → Log table s (es ++ e ∷ []) b
    refused :
        {es : List TransitionEvent} {a : S} (e : TransitionEvent)
        → Log table s es a
        → e.from ≡ st.name a
        → e.accepted ≡ false
        → Log table s (es ++ e ∷ []) a

  -- What a call leaves behind: nothing, one refused event, or one accepted event and a new status.
  pub transition-cases {ℓ} :
      (P : StateMachine S → Type ℓ) (m : StateMachine S) (r : Request S)
      → P m
      → P (record_rejected m r.to r.reason r.time "INVALID_STATE_TRANSITION")
      → (permits m.transitions m.status r.to ≡ true → P (accept m r.to r.reason r.time))
      → P (call m r)
  unfolding transition
  transition-cases P m r same rejected accepted = elim (Bool-cases (m.valid r.to)) [
    | inr e ↦ rw (e, call, transition) same
    | inl e ↦
        rw (e, call, transition)
          (elim (Bool-cases (is_empty (trim_space r.reason))) [
            | inl f ↦ rw (f, call, transition) same
            | inr f ↦
                rw (f, call, transition)
                  (elim (Bool-cases (r.time == 0)) [
                    | inl g ↦ rw (g, call, transition) same
                    | inr g ↦
                        rw (g, call, transition)
                          (elim (Bool-cases (permits m.transitions m.status r.to)) [
                            | inl h ↦ rw (h, call, transition) (accepted h)
                            | inr h ↦ rw (h, call, transition) rejected
                          ])
                  ])
          ])
  ]

  pub call-Log :
      (table : S → Option (List S)) (m : StateMachine S) (s : S) (r : Request S)
      → m.transitions ≡ table
      → Log table s m.events m.status
      → Log table s (call m r).events (call m r).status
  unfolding record_rejected accept
  call-Log table m s r e l =
      transition-cases (λ n. Log table s n.events n.status) m r l (refused _ l refl refl)
        (λ p. moved _ r.to l (rw (← e) p) refl refl refl)

  pub call-transitions :
      (m : StateMachine S) (r : Request S) → (call m r).transitions ≡ m.transitions
  unfolding transition
  call-transitions m r = ground arith

  pub run-Log_from :
      (table : S → Option (List S)) (m : StateMachine S) (s : S) (rs : List (Request S))
      → m.transitions ≡ table
      → Log table s m.events m.status
      → Log table s (run m rs).events (run m rs).status
  unfolding run
  run-Log_from table m s [] e l = l
  run-Log_from table m s (r ∷ rs) e l =
      run-Log_from table (call m r) s rs (call-transitions m r ∙ e) (call-Log table m s r e l)

  -- A machine that was restored with no events holds, after any series of calls, the events that
  -- lead from the restored status to the present one: each starts where those before it lead to,
  -- and each accepted one is an edge of the machine's table.
  pub run-Log :
      (m : StateMachine S) (rs : List (Request S))
      → m.events ≡ []
      → Log m.transitions m.status (run m rs).events (run m rs).status
  run-Log m rs e = run-Log_from m.transitions m m.status rs refl (rw e start)

  call-stays :
      (m : StateMachine S) (s : S) (table : S → Option (List S)) (r : Request S)
      → ((b : S) → permits table s b ≡ false)
      → m.transitions ≡ table
      → m.status ≡ s
      → (call m r).status ≡ s
  unfolding record_rejected accept
  call-stays m s table r stuck t e =
      transition-cases (λ n. n.status ≡ s) m r e e
        λ p. let q : permits m.transitions m.status r.to ≡ false = rw (t, e) (stuck r.to) in cc

  -- a status with no successor is kept, whatever calls follow
  pub run-stays :
      (m : StateMachine S) (s : S) (table : S → Option (List S)) (rs : List (Request S))
      → ((b : S) → permits table s b ≡ false)
      → m.transitions ≡ table
      → m.status ≡ s
      → (run m rs).status ≡ s
  unfolding run
  run-stays m s table [] stuck t e = e
  run-stays m s table (r ∷ rs) stuck t e =
      run-stays (call m r) s table rs stuck (call-transitions m r ∙ t)
        (call-stays m s table r stuck t e)
