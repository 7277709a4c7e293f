-- ===== src/Domain/Host.antt =====
-- internal/domain/host.go: the statuses of a host and the entity over the machine.
use alcor_device_farm.Prelude.{
  ℕ, ◌≡◌, ◌↔◌, Bool, true, false, String, Option, none, List, [], ◌∷◌, arith, str_eq, eq_iff,
}
use alcor_device_farm.Domain.Machine.{
  Status, StateMachine, Error, Result, ok, err, allowed, has_key, new_state_machine, transition,
}

pub data HostStatus : Type 0 where
  online offline draining maintenance : HostStatus
  other : String → HostStatus

-- The string of a status.
abbrev pub host_name : HostStatus → String
host_name online = "online"
host_name offline = "offline"
host_name draining = "draining"
host_name maintenance = "maintenance"
host_name (other s) = s

abbrev pub host_same : HostStatus → HostStatus → Bool
host_same online online = true
host_same offline offline = true
host_same draining draining = true
host_same maintenance maintenance = true
host_same (other s) (other t) = str_eq s t
host_same _ _ = false

pub host_same_iff : (a b : HostStatus) → (host_same a b ≡ true) ↔ (a ≡ b)
host_same_iff (other s) (other t) = ground (arith, eq_iff s t)
host_same_iff _ _ = ground arith

instance abbrev pub host_status : Status HostStatus
host_status = record { name = host_name; same = host_same; same_iff = host_same_iff }

abbrev pub host_transitions : HostStatus → Option (List HostStatus)
host_transitions online = allowed (offline ∷ draining ∷ maintenance ∷ [])
host_transitions offline = allowed (online ∷ maintenance ∷ [])
host_transitions draining = allowed (online ∷ offline ∷ maintenance ∷ [])
host_transitions maintenance = allowed (online ∷ offline ∷ [])
host_transitions (other s) = none

unfoldable pub valid_host : HostStatus → Bool
valid_host status = has_key host_transitions status

pub record Host : Type 0 where
  pub state : StateMachine HostStatus

unfoldable pub restore_host : String → HostStatus → Result Host
unfolding valid_host new_state_machine
restore_host id status =
    elim (new_state_machine "device_host" id "status" status valid_host host_transitions) [
      | ok m ↦ ok (record { state = m })
      | err e ↦ err e
    ]

unfoldable pub transition_host : Host → HostStatus → String → ℕ → Host × Option Error
unfolding transition
transition_host r to reason time =
    let (m, e) = transition r.state to reason time in (record { state = m }, e)
