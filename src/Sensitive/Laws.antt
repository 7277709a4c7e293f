-- ===== src/Sensitive/Laws.antt =====
-- What is left in a value after the redaction (internal/sensitive/sensitive.go).
use alcor_device_farm.Prelude.{◌≡◌, refl, ◌⊎◌, inl, inr, true, String, Bool-cases, arith}
use alcor_device_farm.Json.{Json, Items, Fields}
use alcor_device_farm.Sensitive.{redacted, sensitive_key, redact_value, redact_items, redact_map}

-- Every text in a value comes from RedactText or stands for what was taken out, at any depth, and
-- nothing else stands at a sensitive key.
mutual
  pub IsShown : (String → String) → (String → String) → Json → Type 0
  IsShown lower redact_text (Json.text s) = (s ≡ redacted) ⊎ ((t : String) × (s ≡ redact_text t))
  IsShown lower redact_text (Json.object fields) = AreShown lower redact_text fields
  IsShown lower redact_text (Json.array items) = AllShown lower redact_text items
  IsShown lower redact_text value = Unit

  pub AllShown : (String → String) → (String → String) → Items → Type 0
  AllShown lower redact_text Items.nil = Unit
  AllShown lower redact_text (Items.cons x xs) =
      IsShown lower redact_text x × AllShown lower redact_text xs

  pub AreShown : (String → String) → (String → String) → Fields → Type 0
  AreShown lower redact_text Fields.end = Unit
  AreShown lower redact_text (Fields.field key value rest) =
      (sensitive_key lower key ≡ true → value ≡ Json.text redacted)
      × IsShown lower redact_text value
      × AreShown lower redact_text rest

mutual
  unfolding redact_value redact_items redact_map IsShown AllShown AreShown

  value-IsShown :
      (lower redact_text : String → String) (value : Json)
      → IsShown lower redact_text (redact_value lower redact_text value)
  value-IsShown lower redact_text (Json.text s) = inr (s, refl)
  value-IsShown lower redact_text (Json.object fields) = fields-AreShown lower redact_text fields
  value-IsShown lower redact_text (Json.array items) = items-AllShown lower redact_text items
  value-IsShown lower redact_text Json.null = tt
  value-IsShown lower redact_text (Json.bool b) = tt
  value-IsShown lower redact_text (Json.number n) = tt

  items-AllShown :
      (lower redact_text : String → String) (items : Items)
      → AllShown lower redact_text (redact_items lower redact_text items)
  items-AllShown lower redact_text Items.nil = tt
  items-AllShown lower redact_text (Items.cons x xs) =
      (value-IsShown lower redact_text x, items-AllShown lower redact_text xs)

  fields-AreShown :
      (lower redact_text : String → String) (fields : Fields)
      → AreShown lower redact_text (redact_map lower redact_text fields)
  fields-AreShown lower redact_text Fields.end = tt
  fields-AreShown lower redact_text (Fields.field key value rest) =
      elim (Bool-cases (sensitive_key lower key)) [
        | inl y ↦ rw y ((λ _. refl), inl refl, fields-AreShown lower redact_text rest)
        | inr n ↦ rw n (
          (λ h. absurd (ground arith)),
          value-IsShown lower redact_text value,
          fields-AreShown lower redact_text rest,
        )
      ]

-- After RedactMap, each text at any depth of an object is the placeholder or an outcome of RedactText,
-- and at each sensitive key of an object at any depth stands the placeholder and nothing else.
pub redact_map-AreShown :
    (lower redact_text : String → String) (fields : Fields)
    → AreShown lower redact_text (redact_map lower redact_text fields)
redact_map-AreShown lower redact_text fields = fields-AreShown lower redact_text fields
