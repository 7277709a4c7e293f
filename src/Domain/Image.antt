-- ===== src/Domain/Image.antt =====
-- internal/domain/image.go: the statuses of an image and the entity over the machine.
use alcor_device_farm.Prelude.{
  ℕ, ◌≡◌, ◌↔◌, Bool, true, false, String, Option, none, List, [], ◌∷◌, arith, str_eq, eq_iff,
}
use alcor_device_farm.Domain.Machine.{
  Status, StateMachine, Error, Result, ok, err, allowed, has_key, new_state_machine, transition,
}

pub data ImageStatus : Type 0 where
  draft validating ready failed disabled : ImageStatus
  other : String → ImageStatus

-- The string of a status.
abbrev pub image_name : ImageStatus → String
image_name draft = "draft"
image_name validating = "validating"
image_name ready = "ready"
image_name failed = "failed"
image_name disabled = "disabled"
image_name (other s) = s

abbrev pub image_same : ImageStatus → ImageStatus → Bool
image_same draft draft = true
image_same validating validating = true
image_same ready ready = true
image_same failed failed = true
image_same disabled disabled = true
image_same (other s) (other t) = str_eq s t
image_same _ _ = false

pub image_same_iff : (a b : ImageStatus) → (image_same a b ≡ true) ↔ (a ≡ b)
image_same_iff (other s) (other t) = ground (arith, eq_iff s t)
image_same_iff _ _ = ground arith

instance abbrev pub image_status : Status ImageStatus
image_status = record { name = image_name; same = image_same; same_iff = image_same_iff }

abbrev pub image_transitions : ImageStatus → Option (List ImageStatus)
image_transitions draft = allowed (validating ∷ disabled ∷ [])
image_transitions validating = allowed (draft ∷ ready ∷ failed ∷ disabled ∷ [])
image_transitions ready = allowed (draft ∷ validating ∷ disabled ∷ [])
image_transitions failed = allowed (draft ∷ validating ∷ disabled ∷ [])
image_transitions disabled = allowed (draft ∷ [])
image_transitions (other s) = none

unfoldable pub valid_image : ImageStatus → Bool
valid_image status = has_key image_transitions status

pub record Image : Type 0 where
  pub state : StateMachine ImageStatus

unfoldable pub restore_image : String → ImageStatus → Result Image
unfolding valid_image new_state_machine
restore_image id status =
    elim (new_state_machine "device_image" id "status" status valid_image image_transitions) [
      | ok m ↦ ok (record { state = m })
      | err e ↦ err e
    ]

pub new_image : String → Result Image
unfolding restore_image
new_image id = restore_image id draft

unfoldable pub transition_image : Image → ImageStatus → String → ℕ → Image × Option Error
unfolding transition
transition_image r to reason time =
    let (m, e) = transition r.state to reason time in (record { state = m }, e)
