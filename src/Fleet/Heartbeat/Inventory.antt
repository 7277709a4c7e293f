-- ===== src/Fleet/Heartbeat/Inventory.antt =====
-- The devices that a validated heartbeat reports (internal/hostcommand/service.go, Heartbeat).
use alcor_device_farm.Prelude.{
  ℕ, ◌+◌, ◌≤◌, ◌≡◌, Bool, true, false, ◌&&◌, not, String, List, [], ◌∷◌, any, str_eq, str_eq-cases,
  arith, if◌then◌else◌, Bool-cases, inl, inr, All, sym, eq_iff, subst, eq_refl,
}
use alcor_device_farm.Text.{trim_space, is_empty}
use alcor_device_farm.Failure.{ok, guard-ok, OnOk, OnOk-ok, >>-OnOk, >>=-chain}
use alcor_device_farm.Json.{Fields}
use alcor_device_farm.Store.Rows.{count}
use alcor_device_farm.Fleet.Discovery.{DiscoveredDevice}
use alcor_device_farm.Fleet.Heartbeat.{is_reportable, admit_devices}

abbrev pub has_ref : String → DiscoveredDevice → Bool
has_ref ref d = str_eq d.provider_ref ref

abbrev pub has_serial : String → DiscoveredDevice → Bool
has_serial serial d = not (is_empty d.serial) && str_eq d.serial serial

-- how often a text may still occur
abbrev room : List String → String → ℕ
room seen text = if any (str_eq text) seen then 0 else 1

-- the devices that follow those with the references and the serials
record IsAdmitted (parses : Fields → Bool) (refs serials : List String) (ds : List DiscoveredDevice)
    : Type 0 where
  pub reportable : All (λ d. is_reportable parses d ≡ true) ds
  pub refs_left : (ref : String) → count (has_ref ref) ds ≤ room refs ref
  pub serials_left : (serial : String) → count (has_serial serial) ds ≤ room serials serial

-- one more text, which was not seen
room-next :
    (seen : List String) (t u : String) (n : ℕ)
    → any (str_eq t) seen ≡ false
    → n ≤ room (t ∷ seen) u
    → (if str_eq t u then 1 else 0) + n ≤ room seen u
room-next seen t u n new h = elim (str_eq-cases t u) [
  | inl (same, y) ↦
      let here : str_eq u t ≡ true = subst (λ x. str_eq u x ≡ true) (sym same) (eq_refl u) in
      let fresh : any (str_eq u) seen ≡ false = subst (λ x. any (str_eq x) seen ≡ false) same new in
      ground (arith, y, here, fresh, h)
  | inr (other, y) ↦ elim (str_eq-cases u t) [
    | inl (same, _) ↦ absurd (other (sym same))
    | inr (_, z) ↦ ground (arith, y, z, h)
  ]
]

admit-IsAdmitted :
    (parses : Fields → Bool) (lower : String → String) (refs serials : List String)
    (ds : List DiscoveredDevice)
    → OnOk (IsAdmitted parses refs serials) (admit_devices parses lower refs serials ds)
unfolding admit_devices count
admit-IsAdmitted parses lower refs serials [] =
    OnOk-ok _
      (record { reportable = tt; refs_left = λ r. omega arith; serials_left = λ r. omega arith })
admit-IsAdmitted parses lower refs serials (d ∷ ds) = >>-OnOk λ g.
    let ref = trim_space d.provider_ref in
    let serial = trim_space d.serial in
    let next = if is_empty serial then serials else serial ∷ serials in
    let tests = guard-ok _ _ g in
    >>=-chain (admit-IsAdmitted parses lower (ref ∷ refs) next ds) λ devices rest.
      OnOk-ok _ (record {
        reportable = (ground (arith, tests), rest.reportable);
        refs_left = λ r. room-next refs ref r _ (ground (arith, tests)) (rest.refs_left r);
        serials_left = λ r. elim (Bool-cases (is_empty serial)) [
          | inl y ↦
              let left =
                subst
                  (λ b.
                    count (has_serial r) devices ≤ room (if b then serials else serial ∷ serials) r)
                  y (rest.serials_left r) in
              rw y (ground (arith, left))
          | inr y ↦
              let left =
                subst
                  (λ b.
                    count (has_serial r) devices ≤ room (if b then serials else serial ∷ serials) r)
                  y (rest.serials_left r) in
              rw y (room-next serials serial r _ (ground (arith, tests, y)) left)
        ];
      })

-- What a heartbeat may report, once it is validated: each device is reportable, and no reference and no
-- serial is twice.
pub record IsInventory (parses : Fields → Bool) (ds : List DiscoveredDevice) : Type 0 where
  pub reportable : All (λ d. is_reportable parses d ≡ true) ds
  pub ready : All (λ d. d.lifecycle_status ≡ "ready" → d.health_status ≡ "healthy") ds
  pub refs : (ref : String) → count (has_ref ref) ds ≤ 1
  pub serials : (serial : String) → count (has_serial serial) ds ≤ 1

all-ready :
    (parses : Fields → Bool) (ds : List DiscoveredDevice)
    → All (λ d. is_reportable parses d ≡ true) ds
    → All (λ d. d.lifecycle_status ≡ "ready" → d.health_status ≡ "healthy") ds
unfolding is_reportable
all-ready parses [] h = tt
all-ready parses (d ∷ ds) (h, hs) = (
  (λ r. ground (arith, h, eq_iff d.lifecycle_status "ready", eq_iff d.health_status "healthy", r)),
  all-ready parses ds hs,
)

-- When the validation accepts the devices of a heartbeat, each one that is passed on has a
-- reference, a known lifecycle and a known health, is healthy if it is ready, and has a serial unless
-- it is stopped; and no reference and no serial is twice among them.
pub admit_devices-IsInventory :
    (parses : Fields → Bool) (lower : String → String) (ds : List DiscoveredDevice)
    {out : List DiscoveredDevice}
    → admit_devices parses lower [] [] ds ≡ ok out
    → IsInventory parses out
admit_devices-IsInventory parses lower ds {out} e =
    let admitted = (admit-IsAdmitted parses lower [] [] ds).apply out e in
    record {
      reportable = admitted.reportable;
      ready = all-ready parses out admitted.reportable;
      refs = admitted.refs_left;
      serials = admitted.serials_left;
    }
