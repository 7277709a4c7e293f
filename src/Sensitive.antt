-- ===== src/Sensitive.antt =====
-- internal/sensitive/sensitive.go: secrets are taken out of what is stored. Of the packages of Go it
-- takes strings.ToLower (`lower`) and what package regexp does with the three patterns (`redact_text`
-- is RedactText, and `contains_secret` is Contains).
pub mod Laws
mod Tests
use Prim.Native.Char.{code}
use alcor_device_farm.Prelude.{Bool, false, ◌||◌, String, List, [], ◌∷◌, any, ◌==◌, if◌then◌else◌}
use alcor_device_farm.Text.{contains_text}
use alcor_device_farm.Json.{Json, Items, Fields}

abbrev pub redacted : String
redacted = "[REDACTED]"

-- strings.NewReplacer("-", "", "_", "", ".", "", " ", "").Replace
without_separators : String → String
without_separators String.[] = String.[]
without_separators (String.◌∷◌ c s) =
    let rest = without_separators s in
    if code c == b'-' || code c == b'_' || code c == b'.' || code c == b' '
    then rest
    else String.◌∷◌ c rest

abbrev fragments : List String
fragments =
    "authorization" ∷ "password" ∷ "passwd" ∷ "token" ∷ "secret" ∷ "cookie" ∷ "credential"
    ∷ "apikey" ∷ "dsn" ∷ []

-- sensitiveKey
unfoldable pub sensitive_key : (String → String) → String → Bool
unfolding without_separators
sensitive_key lower key = any (contains_text (without_separators (lower key))) fragments

-- redactValue and RedactMap
unfoldable mutual
  pub redact_value : (String → String) → (String → String) → Json → Json
  redact_value lower redact_text (Json.text s) = Json.text (redact_text s)
  redact_value lower redact_text (Json.object fields) =
      Json.object (redact_map lower redact_text fields)
  redact_value lower redact_text (Json.array items) =
      Json.array (redact_items lower redact_text items)
  redact_value lower redact_text value = value

  pub redact_items : (String → String) → (String → String) → Items → Items
  redact_items lower redact_text Items.nil = Items.nil
  redact_items lower redact_text (Items.cons x xs) =
      Items.cons (redact_value lower redact_text x) (redact_items lower redact_text xs)

  pub redact_map : (String → String) → (String → String) → Fields → Fields
  redact_map lower redact_text Fields.end = Fields.end
  redact_map lower redact_text (Fields.field key value rest) =
      let shown = redact_value lower redact_text value in
      Fields.field key (if sensitive_key lower key then Json.text redacted else shown)
        (redact_map lower redact_text rest)

-- containsValue and ContainsMap
unfoldable mutual
  pub contains_value : (String → String) → (String → Bool) → Json → Bool
  contains_value lower contains_secret (Json.text s) = contains_secret s
  contains_value lower contains_secret (Json.object fields) =
      contains_map lower contains_secret fields
  contains_value lower contains_secret (Json.array items) =
      contains_items lower contains_secret items
  contains_value lower contains_secret value = false

  pub contains_items : (String → String) → (String → Bool) → Items → Bool
  contains_items lower contains_secret Items.nil = false
  contains_items lower contains_secret (Items.cons x xs) =
      contains_value lower contains_secret x || contains_items lower contains_secret xs

  pub contains_map : (String → String) → (String → Bool) → Fields → Bool
  contains_map lower contains_secret Fields.end = false
  contains_map lower contains_secret (Fields.field key value rest) =
      sensitive_key lower key
      || contains_value lower contains_secret value
      || contains_map lower contains_secret rest
