-- ===== src/Fleet/Missing.antt =====
-- internal/hostcommand/service.go, quarantineMissingIOSDevices: the Simulators that a complete
-- inventory of their host no longer has.
use alcor_device_farm.Prelude.{
  ℕ, suc, ◌+◌, ◌≡◌, refl, Bool, true, false, ◌&&◌, not, String, Option, none, some, List, [], ◌∷◌,
  any, str_eq, leb, if◌then◌else◌, Bool-cases, inl, inr,
}
use alcor_device_farm.Text.{trim_space, has_prefix}
use alcor_device_farm.Failure.{
  Result, ok, ◌>>=◌, require, no_id, OnOk, OnOk-ok, >>=-OnOk, >>=-chain,
}
use alcor_device_farm.Json.{Json, Fields}
use alcor_device_farm.Domain.Lifecycle.{DeviceLifecycleStatus, lifecycle_same}
use alcor_device_farm.Domain.Health.{HealthStatus}
use alcor_device_farm.Domain.Reasons.{is_system_recoverable, is_stf_failure_reason}
use alcor_device_farm.Fleet.{DeviceColumns, HealthEventRow}
use alcor_device_farm.Fleet.Operation.Outcome.{failed_columns}
use alcor_device_farm.Fleet.Operation.Kinds.{restored, isolate_once}
use alcor_device_farm.Fleet.Operation.Isolation.{isolate_once-IsOut}

abbrev pub missing_reason : String
missing_reason =
    "IOS_PROVIDER_DEVICE_MISSING: complete inventory no longer contains the registered Simulator"

-- iosInventoryMissingGrace, in microseconds
abbrev grace : ℕ
grace = 30000000

abbrev last_seen : DeviceColumns → ℕ
last_seen d = elim d.last_seen_at [ none ↦ d.created_at | some time ↦ time ]

-- A device that is missing: the query finds it, the inventory does not have it, and it has not been
-- seen for the grace. `in_work` says which devices a command creates, rebuilds or deletes.
unfoldable pub is_missing : (String → Bool) → String → List String → ℕ → DeviceColumns → Bool
is_missing in_work host seen now d =
    str_eq d.host_id host
    && str_eq d.platform "ios"
    && str_eq d.device_kind "simulator"
    && str_eq d.provider_type "appium_device_farm_ios"
    && not (lifecycle_same d.lifecycle_status DeviceLifecycleStatus.quarantined)
    && not (lifecycle_same d.lifecycle_status DeviceLifecycleStatus.deleted)
    && not (in_work d.id)
    && not (any (str_eq d.provider_ref) seen)
    && leb (last_seen d + grace) now

-- the event on a missing device
abbrev pub missing_event : String → String → String → ℕ → HealthEventRow
missing_event id host device now = record {
  id = id;
  device_id = device;
  source = "agent";
  event_type = "ios_provider_device_missing";
  severity = "critical";
  reason = missing_reason;
  payload =
      Fields.field "host_id" (Json.text host)
        (Fields.field "inventory_complete" (Json.bool true) Fields.end);
  observed_at = now;
}

-- one missing device, with the new id if the generator gave one
unfoldable pub quarantine_missing_device :
    Option String → String → ℕ → DeviceColumns → Result (DeviceColumns × HealthEventRow)
quarantine_missing_device new_id host now d = do
  a ← restored d
  isolated ← isolate_once missing_reason now a
  id ← require new_id no_id
  ok (failed_columns missing_reason now isolated d, missing_event id host d.id now)

-- quarantineMissingIOSDevices, on the devices in the order of their ids: the devices that are left, and
-- the new events. `new_id` is what the generator gives for each device.
unfoldable pub quarantine_missing_devices :
    (String → Option String)
    → (String → Bool)
    → String
    → List String
    → ℕ
    → List DeviceColumns
    → Result (List DeviceColumns × List HealthEventRow)
unfolding quarantine_missing_device is_missing
quarantine_missing_devices new_id in_work host seen now [] = ok ([], [])
quarantine_missing_devices new_id in_work host seen now (d ∷ ds) =
    let rest = quarantine_missing_devices new_id in_work host seen now ds in
    let missing = do
      (isolated, event) ← quarantine_missing_device (new_id d.id) host now d
      (left, events) ← rest
      ok (isolated ∷ left, event ∷ events)
    in let present = do (left, events) ← rest; ok (d ∷ left, events)
      in if is_missing in_work host seen now d then missing else present

-- The columns of a device that was found missing. Its reason is one that a heartbeat may lift.
pub record IsLost (d n : DeviceColumns) (event : HealthEventRow) : Type 0 where
  pub quarantined : n.lifecycle_status ≡ DeviceLifecycleStatus.quarantined
  pub unhealthy : n.health_status ≡ HealthStatus.unhealthy
  pub reason : String
  pub reasoned : n.health_reason ≡ some reason
  pub recoverable : is_system_recoverable reason ≡ true
  pub not_stf : is_stf_failure_reason reason ≡ false
  pub failures : n.consecutive_failures ≡ suc d.consecutive_failures
  pub named : event.device_id ≡ d.id

-- The devices before and after with the events: each missing device is lost, with an event, and each
-- other device is as it was.
pub data Swept (missing : DeviceColumns → Bool)
    : List DeviceColumns → List DeviceColumns → List HealthEventRow → Type 0 where
  nothing : Swept missing [] [] []
  lost :
      (d n : DeviceColumns) (event : HealthEventRow) {ds ns : List DeviceColumns}
      {events : List HealthEventRow}
      → missing d ≡ true
      → IsLost d n event
      → Swept missing ds ns events
      → Swept missing (d ∷ ds) (n ∷ ns) (event ∷ events)
  kept :
      (d : DeviceColumns) {ds ns : List DeviceColumns} {events : List HealthEventRow}
      → missing d ≡ false
      → Swept missing ds ns events
      → Swept missing (d ∷ ds) (d ∷ ns) events

quarantine_missing_device-IsLost :
    (new_id : Option String) (host : String) (now : ℕ) (d : DeviceColumns)
    → OnOk (λ t. IsLost d t.0 t.1) (quarantine_missing_device new_id host now d)
unfolding quarantine_missing_device is_system_recoverable is_stf_failure_reason has_prefix
    trim_space
quarantine_missing_device-IsLost new_id host now d = >>=-OnOk λ a _.
    >>=-chain (isolate_once-IsOut missing_reason now a) λ b out. >>=-OnOk λ id _.
      OnOk-ok _ (record {
        quarantined = out.0;
        unhealthy = out.1;
        reason = missing_reason;
        reasoned = refl;
        recoverable = refl;
        not_stf = refl;
        failures = refl;
        named = refl;
      })

devices-Swept :
    (new_id : String → Option String) (in_work : String → Bool) (host : String) (seen : List String)
    (now : ℕ) (ds : List DeviceColumns)
    → OnOk
        (λ t. Swept (is_missing in_work host seen now) ds t.0 t.1)
        (quarantine_missing_devices new_id in_work host seen now ds)
unfolding quarantine_missing_devices
devices-Swept new_id in_work host seen now [] = OnOk-ok _ Swept.nothing
devices-Swept new_id in_work host seen now (d ∷ ds) =
    let rest = devices-Swept new_id in_work host seen now ds in
    elim (Bool-cases (is_missing in_work host seen now d)) [
      | inl y ↦
          rw (y, quarantine_missing_devices)
            (>>=-chain (quarantine_missing_device-IsLost (new_id d.id) host now d)
              λ x l. >>=-chain rest λ t swept. OnOk-ok _ (Swept.lost d x.0 x.1 y l swept))
      | inr y ↦
          rw (y, quarantine_missing_devices)
            (>>=-chain rest λ t swept. OnOk-ok _ (Swept.kept d y swept))
    ]

-- When a heartbeat with a complete inventory succeeds, each missing device of the host is in
-- quarantine and unhealthy, with one failure more, an event, and a reason that a later heartbeat may
-- lift; each other device is as it was, without an event.
pub quarantine_missing_devices-Swept :
    (new_id : String → Option String) (in_work : String → Bool) (host : String) (seen : List String)
    (now : ℕ) (ds : List DeviceColumns) {t : List DeviceColumns × List HealthEventRow}
    → quarantine_missing_devices new_id in_work host seen now ds ≡ ok t
    → Swept (is_missing in_work host seen now) ds t.0 t.1
quarantine_missing_devices-Swept new_id in_work host seen now ds {t} e =
    (devices-Swept new_id in_work host seen now ds).apply t e
