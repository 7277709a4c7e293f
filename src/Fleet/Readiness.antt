-- ===== src/Fleet/Readiness.antt =====
-- internal/hostcommand/service.go, Heartbeat: what a heartbeat does to the status of its host.
use alcor_device_farm.Prelude.{
  ℕ, ◌≡◌, ◌≢◌, refl, ◌⊎◌, inl, inr, Bool, true, false, ◌&&◌, ◌||◌, not, String, Option, none, some,
  arith, ◌==◌, if◌then◌else◌,
}
use alcor_device_farm.Text.{is_identifier, trim_space}
use alcor_device_farm.Failure.{Result, ok, err, ◌>>=◌, checked, from_domain, invalid_argument}
use alcor_device_farm.Json.{Json, Fields, lookup}
use alcor_device_farm.Domain.Machine.{new_state_machine, transition, accept}
use alcor_device_farm.Domain.Host.{HostStatus, host_same, restore_host, transition_host, valid_host}

-- reportedHostReadiness
unfoldable pub reported_host_readiness : Fields → Result (Option Bool)
reported_host_readiness environment = elim (lookup "host_readiness" environment) [
  | none ↦ ok none
  | some (Json.object readiness) ↦ elim (lookup "ready" readiness) [
    | some (Json.bool ready) ↦ ok (some ready)
    | _ ↦ err invalid_argument
  ]
  | some _ ↦ err invalid_argument
]

-- reportedInventoryComplete
unfoldable pub reported_inventory_complete : Fields → Result Bool
reported_inventory_complete environment = elim (lookup "provider_inventory_complete" environment) [
  | none ↦ ok false
  | some (Json.bool complete) ↦ ok complete
  | some _ ↦ err invalid_argument
]

-- The columns of the host that the readiness decides on: whether the maintenance was begun by a
-- heartbeat, and when the host was first not ready.
pub record HostReadiness : Type 0 where
  pub status : HostStatus
  pub auto_maintenance : Bool
  pub failure_started_at : Option ℕ

abbrev started : Bool → Option ℕ → ℕ → Option ℕ
started auto none now = if auto then some now else none
started auto (some t) now = some t

-- the columns that a heartbeat aims at
unfoldable pub readiness_target : HostReadiness → Option Bool → ℕ → HostReadiness
readiness_target h readiness now =
    let by_heartbeat = record h {
      status = if host_same h.status HostStatus.offline then HostStatus.online else h.status;
    } in
    let auto = not (host_same h.status HostStatus.maintenance) || h.auto_maintenance in
    let down : HostReadiness = record {
      status = HostStatus.maintenance;
      auto_maintenance = auto;
      failure_started_at = started auto h.failure_started_at now;
    } in
    let up : HostReadiness = record {
      status = HostStatus.online;
      auto_maintenance = false;
      failure_started_at = none;
    } in
    let ready =
      if host_same h.status HostStatus.offline
        || host_same h.status HostStatus.online
        || (host_same h.status HostStatus.maintenance && h.auto_maintenance)
      then up
      else h in
    let known : HostReadiness = elim readiness [
      | none ↦ by_heartbeat
      | some is_ready ↦ if is_ready then ready else down
    ] in
    if host_same h.status HostStatus.draining then by_heartbeat else known

-- the columns that a heartbeat leaves
unfoldable pub observe_readiness : String → HostReadiness → Option Bool → ℕ → Result HostReadiness
unfolding readiness_target
observe_readiness id h readiness now =
    let target = readiness_target h readiness now in
    let moving = do
      host ← from_domain (restore_host id h.status)
      moved ←
          checked (transition_host host target.status "agent heartbeat readiness observation" now)
      ok (record target { status = moved.state.status })
    in if host_same target.status h.status then ok target else moving

-- A host whose status the heartbeats manage: it is online or offline, or in a maintenance that a
-- heartbeat began.
pub data IsManaged (h : HostReadiness) : Type 0 where
  is_online : h.status ≡ HostStatus.online → IsManaged h
  is_offline : h.status ≡ HostStatus.offline → IsManaged h
  is_maintained : h.status ≡ HostStatus.maintenance → h.auto_maintenance ≡ true → IsManaged h

-- a host in a maintenance that a heartbeat began
abbrev pub under_repair : Option ℕ → HostReadiness
under_repair since = record {
  status = HostStatus.maintenance;
  auto_maintenance = true;
  failure_started_at = since;
}

observe-down :
    (id : String) (h : HostReadiness) (now : ℕ)
    → is_identifier id ≡ true
    → now ≢ 0
    → IsManaged h
    → observe_readiness id h (some false) now
      ≡ ok (under_repair (started true h.failure_started_at now))
unfolding observe_readiness readiness_target restore_host transition_host transition
    new_state_machine valid_host accept ◌>>=◌ trim_space from_domain checked
observe-down id h now i n (is_online e) =
    let t : (now == 0) ≡ false = ground arith in
    rw e (rw (i, observe_readiness, restore_host, new_state_machine) (rw t refl))
observe-down id h now i n (is_offline e) =
    let t : (now == 0) ≡ false = ground arith in
    rw e (rw (i, observe_readiness, restore_host, new_state_machine) (rw t refl))
observe-down id h now i n (is_maintained e a) = rw (e, a) refl

observe-up :
    (id : String) (since : Option ℕ) (now : ℕ)
    → is_identifier id ≡ true
    → now ≢ 0
    → observe_readiness id (under_repair since) (some true) now
      ≡ ok (record {
        status = HostStatus.online;
        auto_maintenance = false;
        failure_started_at = none;
      })
unfolding observe_readiness readiness_target restore_host transition_host transition
    new_state_machine valid_host accept ◌>>=◌ trim_space from_domain checked
observe-up id since now i n =
    let t : (now == 0) ≡ false = ground arith in
    rw (i, observe_readiness, from_domain, restore_host, new_state_machine) (rw t refl)

-- A host whose status the heartbeats manage and that reports that it is not ready is put into
-- maintenance, and the time of the first such report is kept; when it reports that it is ready, it is
-- online and the report is forgotten. The id of the host is valid and the clock is not at zero.
pub observe-repaired :
    (id : String) (h : HostReadiness) (first next : ℕ)
    → is_identifier id ≡ true
    → first ≢ 0
    → next ≢ 0
    → IsManaged h
    → (d : HostReadiness) × (observe_readiness id h (some false) first ≡ ok d)
      × (d.status ≡ HostStatus.maintenance)
      × (d.failure_started_at ≡ started true h.failure_started_at first)
      × (observe_readiness id d (some true) next
          ≡ ok (record {
            status = HostStatus.online;
            auto_maintenance = false;
            failure_started_at = none;
          }))
observe-repaired id h first next i n m managed =
    (_, observe-down id h first i n managed, refl, refl, observe-up id _ next i m)

started-false : (since : Option ℕ) (now : ℕ) → started false since now ≡ since
started-false none now = refl
started-false (some t) now = refl

-- No report, and no missing one, changes the status of a host that is draining or in a maintenance
-- that no heartbeat began, nor the columns that say so.
pub observe-manual :
    (id : String) (h : HostReadiness) (readiness : Option Bool) (now : ℕ)
    → (h.status ≡ HostStatus.draining)
      ⊎ ((h.status ≡ HostStatus.maintenance) × (h.auto_maintenance ≡ false))
    → observe_readiness id h readiness now ≡ ok h
unfolding observe_readiness readiness_target
observe-manual id h readiness now (inl e) = rw e refl
observe-manual id h none now (inr (e, a)) = rw (e, a) refl
observe-manual id h (some true) now (inr (e, a)) = rw (e, a) refl
observe-manual id h (some false) now (inr (e, a)) =
    rw (e, a) (rw (started-false h.failure_started_at now) refl)
