-- ===== src/Sensitive/Tests.antt =====
-- The redaction on a concrete object.
use alcor_device_farm.Prelude.{String}
use alcor_device_farm.Json.{Json, Items, Fields}
use alcor_device_farm.Sensitive.{redact_map}
use alcor_device_farm.Sensitive.Laws.{AreShown, redact_map-AreShown}

abbrev settings : Fields
settings = Fields.field "user" (Json.text "a") (
    Fields.field "api-key" (Json.number "7") (
      Fields.field "lines" (Json.array (Items.cons (Json.text "bearer abcdef") Items.nil))
        Fields.end))

abbrev hide : String → String
hide s = "Bearer [REDACTED]"

redact_map-AreShown_example : AreShown (λ s. s) hide (redact_map (λ s. s) hide settings)
redact_map-AreShown_example = redact_map-AreShown (λ s. s) hide settings
