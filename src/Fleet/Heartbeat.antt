-- ===== src/Fleet/Heartbeat.antt =====
-- internal/hostcommand/service.go, Heartbeat: what a heartbeat may say of the devices. The validation
-- of the runtime profiles (internal/runtimeprofile) and strings.ToLower are arguments.
pub mod Inventory
use alcor_device_farm.Prelude.{
  ℕ, ◌+◌, ◌≤◌, ◌≡◌, Bool, true, false, ◌&&◌, ◌||◌, not, String, Option, none, some, List, [], ◌∷◌,
  any, str_eq, str_eq-cases, arith, if◌then◌else◌, Bool-cases, inl, inr, All, sym, eq_iff, subst,
  eq_refl,
}
use alcor_device_farm.Text.{trim_space, is_empty}
use alcor_device_farm.Failure.{
  Result, ok, err, ◌>>◌, ◌>>=◌, guard, guard-ok, invalid_argument, OnOk, OnOk-ok, >>-OnOk,
  >>=-chain,
}
use alcor_device_farm.Json.{Json, Fields, lookup}
use alcor_device_farm.Store.Rows.{count}
use alcor_device_farm.Fleet.Discovery.{DiscoveredDevice, discovered_connection}

-- validDiscoveredLifecycle
unfoldable pub valid_discovered_lifecycle : String → Bool
valid_discovered_lifecycle value =
    str_eq value "booting" || str_eq value "ready" || str_eq value "stopped"

-- validDiscoveredHealth
unfoldable pub valid_discovered_health : String → Bool
valid_discovered_health value =
    str_eq value "unknown"
    || str_eq value "healthy"
    || str_eq value "degraded"
    || str_eq value "unhealthy"

abbrev valid_probe : String → Bool
valid_probe name =
    str_eq name "transport"
    || str_eq name "os_ready"
    || str_eq name "automation"
    || str_eq name "router"
    || str_eq name "remote_control"

abbrev valid_probe_status : String → Bool
valid_probe_status status =
    str_eq status "passed"
    || str_eq status "failed"
    || str_eq status "unknown"
    || str_eq status "unsupported"

-- validComponents
unfoldable pub valid_components : List (String × String) → Bool
valid_components [] = true
valid_components ((name, status) ∷ rest) =
    valid_probe name && valid_probe_status status && valid_components rest

-- the device with its texts in the form in which they are compared
abbrev pub normalized : (String → String) → DiscoveredDevice → DiscoveredDevice
normalized lower d = record d {
  provider_ref = trim_space d.provider_ref;
  serial = trim_space d.serial;
  platform = lower (trim_space d.platform);
  device_kind = lower (trim_space d.device_kind);
  provider_type = lower (trim_space d.provider_type);
}

-- "" or one of the names
abbrev one_of : String → List String → Bool
one_of value names = is_empty value || any (str_eq value) names

abbrev connects : DiscoveredDevice → Bool
connects d = elim (discovered_connection d.connection) [ ok connection ↦ true | err e ↦ false ]

abbrev no_fields : Fields → Bool
no_fields Fields.end = true
no_fields _ = false

-- a device that a heartbeat may report, whatever the others
unfoldable pub is_reportable : (Fields → Bool) → DiscoveredDevice → Bool
unfolding valid_discovered_lifecycle valid_discovered_health valid_components
is_reportable parses d =
    not (is_empty d.provider_ref)
    && valid_discovered_lifecycle d.lifecycle_status
    && valid_discovered_health d.health_status
    && not (str_eq d.lifecycle_status "ready" && not (str_eq d.health_status "healthy"))
    && one_of d.platform ("android" ∷ "ios" ∷ [])
    && one_of d.device_kind ("emulator" ∷ "simulator" ∷ "physical" ∷ [])
    && one_of d.provider_type
        ("mock" ∷ "docker_emulator" ∷ "usb_android" ∷ "appium_device_farm_ios" ∷ [])
    && valid_components d.components
    && not (is_empty d.serial && not (str_eq d.lifecycle_status "stopped"))
    && connects d
    && (no_fields d.runtime_profile || parses d.runtime_profile)

-- Is the device not reported before? A missing serial is not compared.
abbrev pub is_new : List String → List String → DiscoveredDevice → Bool
is_new refs serials d =
    not (any (str_eq d.provider_ref) refs)
    && not (not (is_empty d.serial) && any (str_eq d.serial) serials)

-- The validation of the devices, after those with the references `refs` and the serials `serials`:
-- the devices as they are stored.
unfoldable pub admit_devices :
    (Fields → Bool)
    → (String → String)
    → List String
    → List String
    → List DiscoveredDevice
    → Result (List DiscoveredDevice)
unfolding is_reportable
admit_devices parses lower refs serials [] = ok ([])
admit_devices parses lower refs serials (d ∷ ds) =
    let device = normalized lower d in
    let rest =
      admit_devices parses lower (device.provider_ref ∷ refs)
        (if is_empty device.serial then serials else device.serial ∷ serials) ds in
    do
      guard (is_reportable parses device && is_new refs serials device) invalid_argument
      devices ← rest
      ok (device ∷ devices)

-- discoveredCountsAsUsed
unfoldable pub discovered_counts_as_used : DiscoveredDevice → Bool
discovered_counts_as_used d =
    if not (str_eq d.platform "ios")
    then true
    else elim (lookup "allowlisted" d.capabilities) [ some (Json.bool b) ↦ b | _ ↦ false ]

-- reportedHostIdentity: the system and the architecture of the host. `matches` is the pattern of the
-- second.
unfoldable pub reported_host_identity :
    (String → String) → (String → Bool) → Fields → Result (Option String × Option String)
reported_host_identity lower matches environment = do
  host_os ← elim (lookup "host_os" environment) [
    | none ↦ ok none
    | some (Json.text raw) ↦
        if any (str_eq (lower (trim_space raw))) ("linux" ∷ "macos" ∷ "windows" ∷ [])
        then ok (some (lower (trim_space raw)))
        else err invalid_argument
    | some _ ↦ err invalid_argument
  ]
  host_arch ← elim (lookup "host_arch" environment) [
    | none ↦ ok none
    | some (Json.text raw) ↦
        if matches (trim_space raw) then ok (some (trim_space raw)) else err invalid_argument
    | some _ ↦ err invalid_argument
  ]
  ok (host_os, host_arch)
