-- ===== src/Fleet/Operation/Laws.antt =====
-- A finished operation moves its device as device.go allows
-- (internal/hostcommand/service.go, reconcileManagementOperation).
use alcor_device_farm.Prelude.{
  ℕ, ◌≡◌, refl, subst, ◌∙◌, ◌⊎◌, inl, inr, Bool, true, false, String, Option, none, some, List,
  Option-cases, arith, ap, sym, Bool-cases, ◌&&◌, ◌||◌, not, leb, str_eq, eq_iff, if◌then◌else◌,
}
use alcor_device_farm.Failure.{
  Result, ok, err, OnOk, OnOk-ok, OnOk-err, OnOk-imp, invalid_argument, >>=-OnOk, >>=-chain,
  if-OnOk,
}
use alcor_device_farm.Text.{size, is_empty, trim_space}
use alcor_device_farm.Json.{Json, Fields, lookup}
use alcor_device_farm.Domain.Command.{CommandStatus}
use alcor_device_farm.Domain.Lifecycle.{DeviceLifecycleStatus}
use alcor_device_farm.Domain.Health.{HealthStatus}
use alcor_device_farm.Domain.Device.{Device}
use alcor_device_farm.Domain.Reasons.{stf_readiness_stabilization}
use alcor_device_farm.Store.Rows.{find_row, find_row-passes}
use alcor_device_farm.HostCommand.Table.{CommandRow}
use alcor_device_farm.Fleet.{DeviceColumns}
use alcor_device_farm.Fleet.Entity.{restored-IsAt, report_change-lifecycle, become-health}
use alcor_device_farm.Fleet.Trail.{
  Trail, IsOn, restored-IsOn, become-IsOn, report-IsOn, report_change-IsOn,
}
use alcor_device_farm.Fleet.Operation.Outcome.{
  OperationResult, Outside, Done, valid_result, has_status, isolate, finish, finish_operation,
  payload_string,
}
use alcor_device_farm.Fleet.Operation.Kinds.{
  restored, is_at, step_from, isolate_once, fail_operation, start_operation, reconcile_start,
  reconcile_stop, reconcile_delete, started_columns, stop_succeeded, delete_succeeded,
}
use alcor_device_farm.Fleet.Operation.Replacements.{
  Ended, applied, rolled_back, lost, ended, reimaged, reprofiled, when_ready, reconcile_reimage,
  reconcile_profile,
}
use alcor_device_farm.Fleet.Operation.{
  Request, is_target, is_expected, reconcile_kind, reconcile_request, reconcile_operation,
  request_of,
}

-- if a reconciliation changes the device, its columns satisfy `P`
abbrev Leaves : (DeviceColumns → Type 0) → Option Done → Type 0
Leaves P none = Unit
Leaves P (some done) = P done.columns

-- the same of an entity
abbrev Holds : (Device → Type 0) → Option Device → Type 0
Holds P none = Unit
Holds P (some a) = P a

module _ (s : DeviceLifecycleStatus) (h : HealthStatus) where
  step_from-IsOn :
      (test : Bool) (to : DeviceLifecycleStatus) (reason : String) (now : ℕ) (a : Device)
      → IsOn s h a
      → OnOk (IsOn s h) (step_from test to reason now a)
  step_from-IsOn true to reason now a on = become-IsOn s h to reason now a on
  step_from-IsOn false to reason now a on = OnOk-ok a on

  isolate-IsOn :
      (reason : String) (now : ℕ) (a : Device) → IsOn s h a → OnOk (IsOn s h) (isolate reason now a)
  isolate-IsOn reason now a on =
      >>=-chain (report_change-IsOn s h _ reason now a on)
        λ b on_b. become-IsOn s h _ reason now b on_b

  isolate_once-IsOn :
      (reason : String) (now : ℕ) (a : Device)
      → IsOn s h a
      → OnOk (IsOn s h) (isolate_once reason now a)
  isolate_once-IsOn reason now a on =
      >>=-chain (report_change-IsOn s h _ reason now a on)
        λ b on_b. step_from-IsOn _ _ reason now b on_b

  reimaged-IsOn :
      (reason : String) (now : ℕ) (a : Device)
      → IsOn s h a
      → OnOk (Holds (IsOn s h)) (reimaged reason now a)
  unfolding reimaged
  reimaged-IsOn reason now a on = >>=-chain (report_change-IsOn s h _ reason now a on) λ b on_b.
      >>=-chain (step_from-IsOn _ _ reason now b on_b) λ c on_c.
        if-OnOk (is_at DeviceLifecycleStatus.booting c)
          (>>=-chain (become-IsOn s h _ reason now c on_c) λ e on_e.
            >>=-chain (report-IsOn s h _ stf_readiness_stabilization now e on_e)
              λ f on_f. OnOk-ok _ on_f)
          (OnOk-ok _ tt)

  reprofiled-IsOn :
      (reason : String) (now : ℕ) (a : Device)
      → IsOn s h a
      → OnOk (Holds (IsOn s h)) (reprofiled reason now a)
  unfolding reprofiled
  reprofiled-IsOn reason now a on = >>=-chain (report_change-IsOn s h _ reason now a on) λ b on_b.
      >>=-chain (step_from-IsOn _ _ reason now b on_b) λ c on_c.
        >>=-chain (step_from-IsOn _ _ reason now c on_c) λ e on_e.
          >>=-chain (step_from-IsOn _ _ reason now e on_e) λ f on_f.
            if-OnOk _
              (>>=-chain (report-IsOn s h _ stf_readiness_stabilization now f on_f)
                λ g on_g. OnOk-ok _ on_g)
              (OnOk-ok _ tt)

Ended-cases :
    (how : Ended)
    → ((value : OperationResult) × (how ≡ applied value))
      ⊎ ((value : OperationResult) × (how ≡ rolled_back value))
      ⊎ (how ≡ lost)
Ended-cases (applied value) = inl (value, refl)
Ended-cases (rolled_back value) = inr (inl (value, refl))
Ended-cases lost = inr (inr refl)

-- The columns of the same device, moved from those that it had.
abbrev pub Follows : DeviceColumns → DeviceColumns → Type 0
Follows d n =
    (n.id ≡ d.id) × Trail d.lifecycle_status d.health_status n.lifecycle_status n.health_status

module _ (o : Outside) (c : CommandRow) (d : DeviceColumns) where
  abbrev FromRow : Device → Type 0
  FromRow = IsOn d.lifecycle_status d.health_status

  restored-FromRow : OnOk FromRow (restored d)
  restored-FromRow = restored-IsOn d.lifecycle_status d.health_status d.id

  fail-Follows :
      (code reason : String) → OnOk (Leaves (Follows d)) (fail_operation o c code reason d)
  unfolding fail_operation finish_operation finish
  fail-Follows code reason = >>=-chain restored-FromRow λ a on_a.
      >>=-chain (isolate-IsOn _ _ reason o.now a on_a)
        λ b on_b. >>=-OnOk λ id _. OnOk-ok _ (refl, on_b.trail)

  start-Follows :
      (value : OperationResult) → OnOk (Leaves (Follows d)) (start_operation o c value d)
  unfolding start_operation finish_operation finish started_columns
  start-Follows value = >>=-chain restored-FromRow λ a on_a.
      >>=-chain (report_change-IsOn _ _ _ _ o.now a on_a) λ b on_b.
        >>=-chain (step_from-IsOn _ _ _ _ _ o.now b on_b) λ e on_e.
          if-OnOk _
            (>>=-chain (become-IsOn _ _ _ _ o.now e on_e) λ f on_f.
              >>=-chain
                (if-OnOk _ (report-IsOn _ _ _ stf_readiness_stabilization o.now f on_f)
                  (OnOk-ok f on_f))
                λ g on_g. >>=-OnOk λ id _. OnOk-ok _ (refl, on_g.trail))
            (OnOk-ok _ tt)

  reconcile_start-Follows : OnOk (Leaves (Follows d)) (reconcile_start o c d)
  unfolding reconcile_start
  reconcile_start-Follows = elim (Option-cases (valid_result o c)) [
    | inl n ↦ rw (n, reconcile_start) (fail-Follows _ _)
    | inr (value, n) ↦
        rw (n, reconcile_start)
          (if-OnOk (has_status CommandStatus.succeeded c) (start-Follows value) (fail-Follows _ _))
  ]

  reconcile_stop-Follows : OnOk (Leaves (Follows d)) (reconcile_stop o c d)
  unfolding reconcile_stop finish_operation finish
  reconcile_stop-Follows =
      if-OnOk (stop_succeeded o c)
        (>>=-OnOk λ a e. >>=-OnOk λ b f.
          let on_b = (report_change-IsOn _ _ _ _ o.now a (restored-FromRow.apply a e)).apply b f in
          let start =
            ((restored-IsAt d.id d.lifecycle_status d.health_status).apply a e).lifecycle in
          let kept = (report_change-lifecycle _ _ o.now a).apply b f ∙ start in
          if-OnOk _
            (>>=-OnOk λ id _. OnOk-ok _ (
              refl,
              subst (λ l. Trail d.lifecycle_status d.health_status l b.health) kept on_b.trail,
            ))
            (OnOk-ok _ tt))
        (fail-Follows _ _)

  reconcile_delete-Follows : OnOk (Leaves (Follows d)) (reconcile_delete o c d)
  unfolding reconcile_delete finish_operation finish
  reconcile_delete-Follows =
      if-OnOk (delete_succeeded o c)
        (>>=-OnOk λ a e. >>=-OnOk λ b f.
          let on_b = (become-IsOn _ _ _ _ o.now a (restored-FromRow.apply a e)).apply b f in
          let start = ((restored-IsAt d.id d.lifecycle_status d.health_status).apply a e).health in
          let kept = (become-health _ _ o.now a).apply b f ∙ start in
          >>=-OnOk λ id _. OnOk-ok _ (
            refl,
            subst (λ k. Trail d.lifecycle_status d.health_status b.lifecycle.status k) kept
                on_b.trail,
          ))
        (>>=-chain restored-FromRow λ a on_a.
          >>=-chain (isolate_once-IsOn _ _ _ o.now a on_a)
            λ b on_b. >>=-OnOk λ id _. OnOk-ok _ (refl, on_b.trail))

  -- the end of a replacement that left a healthy device
  when_ready-Follows :
      (ready : Option Device) (change : Device → Result (Option Done))
      → Holds FromRow ready
      → ((a : Device) → FromRow a → OnOk (Leaves (Follows d)) (change a))
      → OnOk (Leaves (Follows d)) (when_ready ready change)
  when_ready-Follows none change on f = OnOk-ok _ tt
  when_ready-Follows (some a) change on f = f a on

  reimage-Follows : (payload : Fields) → OnOk (Leaves (Follows d)) (reconcile_reimage o c payload d)
  unfolding reconcile_reimage finish
  reimage-Follows payload = >>=-chain restored-FromRow λ a on_a.
      elim (Ended-cases (ended o c (λ value. value.reimage_applied))) [
        | inl (value, e) ↦ rw e (
            >>=-chain (reimaged-IsOn _ _ _ o.now a on_a) λ ready on.
              when_ready-Follows ready _ on
                λ b on_b. >>=-OnOk λ profile _. >>=-OnOk λ id _. OnOk-ok _ (refl, on_b.trail))
        | inr (inl (value, e)) ↦ rw e (
            >>=-chain (reimaged-IsOn _ _ _ o.now a on_a) λ ready on.
              when_ready-Follows ready _ on λ b on_b. >>=-OnOk λ id _. OnOk-ok _ (refl, on_b.trail))
        | inr (inr e) ↦ rw e (
            >>=-chain (isolate-IsOn _ _ _ o.now a on_a)
              λ b on_b. >>=-OnOk λ id _. OnOk-ok _ (refl, on_b.trail))
      ]

  profile-Follows : (payload : Fields) → OnOk (Leaves (Follows d)) (reconcile_profile o c payload d)
  unfolding reconcile_profile finish
  profile-Follows payload = >>=-chain restored-FromRow λ a on_a.
      elim (Ended-cases (ended o c (λ value. value.runtime_profile_update_applied))) [
        | inl (value, e) ↦ rw e (
            >>=-chain (reprofiled-IsOn _ _ _ o.now a on_a) λ ready on.
              when_ready-Follows ready _ on
                λ b on_b. >>=-OnOk λ profile _. >>=-OnOk λ id _. OnOk-ok _ (refl, on_b.trail))
        | inr (inl (value, e)) ↦ rw e (
            >>=-chain (reprofiled-IsOn _ _ _ o.now a on_a) λ ready on.
              when_ready-Follows ready _ on λ b on_b. >>=-OnOk λ id _. OnOk-ok _ (refl, on_b.trail))
        | inr (inr e) ↦ rw e (
            >>=-chain (isolate_once-IsOn _ _ _ o.now a on_a)
              λ b on_b. >>=-OnOk λ id _. OnOk-ok _ (refl, on_b.trail))
      ]

  kind-Follows :
      (payload : Fields) (q : Request) → OnOk (Leaves (Follows d)) (reconcile_kind o c payload q d)
  unfolding reconcile_kind
  kind-Follows payload q = if-OnOk _ reconcile_delete-Follows (
      if-OnOk _ (reimage-Follows payload) (
        if-OnOk _ (profile-Follows payload)
          (if-OnOk _ reconcile_stop-Follows reconcile_start-Follows)))

-- The payload of a command has a text at a key, up to the spaces around it.
abbrev pub Says : Fields → String → String → Type 0
Says fields key value =
    (raw : String) × (lookup key fields ≡ some (Json.text raw)) × (trim_space raw ≡ value)

-- The command is for a host and names the device by its id and its provider's reference.
pub record Names (c : CommandRow) (d : DeviceColumns) : Type 0 where
  pub fields : Fields
  pub payload : c.payload ≡ Json.object fields
  pub id : Says fields "device_id" d.id
  pub provider_ref : Says fields "provider_ref" d.provider_ref
  pub host : d.host_id ≡ c.host_id

-- a text of a payload that is not empty
payload_string-Says :
    (fields : Fields) (key value : String)
    → is_empty value ≡ false
    → payload_string fields key ≡ value
    → Says fields key value
payload_string-Says fields key value n e = from (lookup key fields) refl e
  where
    from :
        (found : Option Json)
        → lookup key fields ≡ found
        → (elim found [ some (Json.text s) ↦ trim_space s | _ ↦ "" ]) ≡ value
        → Says fields key value
    from (some (Json.text raw)) f e = (raw, f, e)
    from none f e = absurd (ground (arith, n, ap is_empty e))
    from (some Json.null) f e = absurd (ground (arith, n, ap is_empty e))
    from (some (Json.bool b)) f e = absurd (ground (arith, n, ap is_empty e))
    from (some (Json.number t)) f e = absurd (ground (arith, n, ap is_empty e))
    from (some (Json.array xs)) f e = absurd (ground (arith, n, ap is_empty e))
    from (some (Json.object xs)) f e = absurd (ground (arith, n, ap is_empty e))

-- a long text is not empty
long-is_empty : (s : String) → leb 16 (size s) ≡ true → is_empty s ≡ false
unfolding size
long-is_empty String.[] h = absurd (ground (arith, h))
long-is_empty (String.◌∷◌ c s) h = refl

-- the same id, host and reference
abbrev located : String → String → String → DeviceColumns → Bool
located id host ref e = str_eq e.id id && str_eq e.host_id host && str_eq e.provider_ref ref

abbrev pub is_same : DeviceColumns → DeviceColumns → Bool
is_same d = located d.id d.host_id d.provider_ref

module _ (o : Outside) (devices : List DeviceColumns) (c : CommandRow) where
  -- The change is of a stored device that the command names, and it follows from that device.
  abbrev IsFound : Option Done → Type 0
  IsFound none = Unit
  IsFound (some done) =
      (d : DeviceColumns) × Names c d
      × (find_row (is_same d) devices ≡ some d)
      × Follows d done.columns

  module _ (payload : Fields) (is_payload : c.payload ≡ Json.object payload) where
    abbrev asked : Request
    asked = request_of payload

    target-IsFound :
        (d : DeviceColumns) (change : Option Done)
        → leb 16 (size asked.device_id) ≡ true
        → is_empty asked.provider_ref ≡ false
        → find_row (is_target c asked) devices ≡ some d
        → Leaves (Follows d) change
        → IsFound change
    target-IsFound d none long n e l = tt
    target-IsFound d (some done) long n e l =
        let passes = find_row-passes (is_target c asked) devices e in
        let id : asked.device_id ≡ d.id =
          sym (ground (arith, passes, eq_iff d.id asked.device_id)) in
        let ref : asked.provider_ref ≡ d.provider_ref =
          sym (ground (arith, passes, eq_iff d.provider_ref asked.provider_ref)) in
        let host : d.host_id ≡ c.host_id = ground (arith, passes, eq_iff d.host_id c.host_id) in
        (
          d,
          record {
            fields = payload;
            payload = is_payload;
            id =
                payload_string-Says payload "device_id" d.id
                  (subst (λ s. is_empty s ≡ false) id (long-is_empty asked.device_id long)) id;
            provider_ref =
                payload_string-Says payload "provider_ref" d.provider_ref
                  (subst (λ s. is_empty s ≡ false) ref n) ref;
            host = host;
          },
          subst (λ x. find_row (located d.id x d.provider_ref) devices ≡ some d) (sym host)
              (subst (λ x. find_row (located d.id c.host_id x) devices ≡ some d) ref
                (subst (λ x. find_row (located x c.host_id asked.provider_ref) devices ≡ some d) id
                  e)),
          l,
        )

    request-IsFound : OnOk IsFound (reconcile_request o devices c payload asked)
    unfolding reconcile_request
    request-IsFound = elim (Option-cases (find_row (is_target c asked) devices)) [
      | inl n ↦
          rw (n, reconcile_request)
            (if-OnOk _ (OnOk-ok none tt) (if-OnOk _ (OnOk-err invalid_argument) (OnOk-ok none tt)))
      | inr (d, n) ↦
          let test =
            not (leb 16 (size asked.device_id))
            || is_empty asked.provider_ref
            || is_empty asked.state in
          let change =
            if is_expected c asked d then reconcile_kind o c payload asked d else ok none in
          let found : OnOk IsFound (if test then err invalid_argument else change) =
            elim (Bool-cases test) [
              | inl y ↦ rw y (OnOk-err invalid_argument)
              | inr y ↦ rw y (
                  if-OnOk (is_expected c asked d)
                    (OnOk-imp _ _ _
                      (λ change l.
                        target-IsFound d change (ground (arith, y)) (ground (arith, y)) n l)
                      (kind-Follows o c d payload asked))
                    (OnOk-ok none tt))
            ] in
          rw (n, reconcile_request) (if-OnOk _ (OnOk-ok none tt) found)
    ]

  payload-IsFound :
      (payload : Json)
      → c.payload ≡ payload
      → OnOk IsFound (elim payload [
        | Json.object fields ↦ reconcile_request o devices c fields (request_of fields)
        | Json.null ↦ reconcile_request o devices c Fields.end (request_of Fields.end)
        | _ ↦ err invalid_argument
      ])
  unfolding reconcile_request lookup
  payload-IsFound (Json.object fields) e = request-IsFound fields e
  payload-IsFound Json.null e = OnOk-ok none tt
  payload-IsFound _ e = OnOk-err _

  operation-IsFound : OnOk IsFound (reconcile_operation o devices c)
  unfolding reconcile_operation
  operation-IsFound = if-OnOk _ (OnOk-ok _ tt) (payload-IsFound c.payload refl)

-- When the end of a command changes a device, it is a stored device of the host of the command, and
-- the payload has its id at `device_id` and its reference at `provider_ref`. The change keeps its id,
-- and its lifecycle and its health are reached from those that it had by moves that device.go allows:
-- along the tables, and to `ready` only while it is healthy.
pub reconcile_operation-Follows :
    (o : Outside) (devices : List DeviceColumns) (c : CommandRow) {done : Done}
    → reconcile_operation o devices c ≡ ok (some done)
    → (d : DeviceColumns) × Names c d
      × (find_row (is_same d) devices ≡ some d)
      × Follows d done.columns
reconcile_operation-Follows o devices c {done} e =
    (operation-IsFound o devices c).apply (some done) e
