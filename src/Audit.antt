-- ===== src/Audit.antt =====
-- internal/audit/actor.go: the identity that a write is recorded under.
use alcor_device_farm.Prelude.{ℕ, Bool, false, ◌&&◌, ◌||◌, not, String, str_eq, leb, if◌then◌else◌}
use Prim.Native.Char.{code}
use Prim.Native.String.{◌++◌ as str_append}
use alcor_device_farm.Text.{trim_space, is_empty, count}

pub record Actor : Type 0 where
  pub kind : String
  pub id : String
  pub client_id : String

-- unicode.IsControl
is_control : ℕ → Bool
is_control c = leb c 0x1f || (leb 0x7f c && leb c 0x9f)

has_control : String → Bool
unfolding is_control
has_control String.[] = false
has_control (String.◌∷◌ c s) = is_control (code c) || has_control s

unfoldable pub valid_field : String → ℕ → Bool
unfolding has_control
valid_field value limit =
    not (is_empty (trim_space value)) && leb (count value) limit && not (has_control value)

unfoldable pub valid_actor : Actor → Bool
unfolding valid_field
valid_actor a =
    (str_eq a.kind "service"
      || str_eq a.kind "agent"
      || str_eq a.kind "console"
      || str_eq a.kind "system")
    && valid_field a.id 128
    && valid_field a.client_id 128

unfoldable pub service : String → Actor
unfolding valid_field
service actor_id =
    let trimmed = trim_space actor_id in
    record {
      kind = "service";
      id = if valid_field trimmed 128 then trimmed else "service";
      client_id = "service";
    }

unfoldable pub console : String → Actor
console subject =
    let trimmed = trim_space subject in
    record { kind = "console"; id = trimmed; client_id = str_append "console:" trimmed }

abbrev pub system : Actor
system = record { kind = "system"; id = "system"; client_id = "system" }
