-- ===== src/Domain/Pool.antt =====
-- internal/domain/pool.go: the statuses of a pool and the entity over the machine.
use alcor_device_farm.Prelude.{
  ℕ, ◌≡◌, ◌↔◌, Bool, true, false, String, Option, none, List, [], ◌∷◌, arith, str_eq, eq_iff,
}
use alcor_device_farm.Domain.Machine.{
  Status, StateMachine, Error, Result, ok, err, allowed, has_key, new_state_machine, transition,
}

pub data PoolStatus : Type 0 where
  active disabled : PoolStatus
  other : String → PoolStatus

-- The string of a status.
abbrev pub pool_name : PoolStatus → String
pool_name active = "active"
pool_name disabled = "disabled"
pool_name (other s) = s

abbrev pub pool_same : PoolStatus → PoolStatus → Bool
pool_same active active = true
pool_same disabled disabled = true
pool_same (other s) (other t) = str_eq s t
pool_same _ _ = false

pub pool_same_iff : (a b : PoolStatus) → (pool_same a b ≡ true) ↔ (a ≡ b)
pool_same_iff (other s) (other t) = ground (arith, eq_iff s t)
pool_same_iff _ _ = ground arith

instance abbrev pub pool_status : Status PoolStatus
pool_status = record { name = pool_name; same = pool_same; same_iff = pool_same_iff }

abbrev pub pool_transitions : PoolStatus → Option (List PoolStatus)
pool_transitions active = allowed (disabled ∷ [])
pool_transitions disabled = allowed (active ∷ [])
pool_transitions (other s) = none

unfoldable pub valid_pool : PoolStatus → Bool
valid_pool status = has_key pool_transitions status

pub record Pool : Type 0 where
  pub state : StateMachine PoolStatus

unfoldable pub restore_pool : String → PoolStatus → Result Pool
unfolding valid_pool new_state_machine
restore_pool id status =
    elim (new_state_machine "device_pool" id "status" status valid_pool pool_transitions) [
      | ok m ↦ ok (record { state = m })
      | err e ↦ err e
    ]

pub new_pool : String → Result Pool
unfolding restore_pool
new_pool id = restore_pool id active

unfoldable pub transition_pool : Pool → PoolStatus → String → ℕ → Pool × Option Error
unfolding transition
transition_pool r to reason time =
    let (m, e) = transition r.state to reason time in (record { state = m }, e)
