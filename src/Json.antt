-- ===== src/Json.antt =====
-- The JSON values of the columns of type jsonb, as encoding/json decodes them: a number is the
-- canonical text of its float64, and an object is the list of its fields, with distinct names. And
-- internal/repository/errors.go, which compares two of them.
use alcor_device_farm.Prelude.{
  ◌≡◌, refl, ℕ, suc, Bool, true, false, ◌&&◌, String, Option, none, some, str_eq, ◌==◌,
  if◌then◌else◌,
}

mutual
  pub data Json : Type 0 where
    null : Json
    bool : Bool → Json
    number : String → Json
    text : String → Json
    array : Items → Json
    object : Fields → Json

  pub data Items : Type 0 where
    nil : Items
    cons : Json → Items → Items

  pub data Fields : Type 0 where
    end : Fields
    field : String → Json → Fields → Fields

-- values[key]
unfoldable pub lookup : String → Fields → Option Json
lookup key end = none
lookup key (field name value rest) = if str_eq name key then some value else lookup key rest

-- values[key] = value
unfoldable pub set_field : String → Json → Fields → Fields
set_field key value end = field key value end
set_field key value (field name old rest) =
    let set = set_field key value rest in
    if str_eq name key then field name value rest else field name old set

-- the operator || on two objects of type jsonb
unfoldable pub merge : Fields → Fields → Fields
unfolding set_field
merge left end = left
merge left (field name value rest) = merge (set_field name value left) rest

-- payload->>key where the value is a text, a number or a Boolean; an array or an object has a text that
-- is not compared with anything here
unfoldable pub text_at : String → Json → Option String
unfolding lookup
text_at key (object fields) = elim (lookup key fields) [
  | some (text s) ↦ some s
  | some (number s) ↦ some s
  | some (bool true) ↦ some "true"
  | some (bool false) ↦ some "false"
  | _ ↦ none
]
text_at key _ = none

abbrev pub fields_count : Fields → ℕ
fields_count end = 0
fields_count (field name value rest) = suc (fields_count rest)

abbrev same_field : Option Json → (Json → Bool) → Bool
same_field none same = false
same_field (some value) same = same value

-- reflect.DeepEqual on decoded values; two maps have as many keys, and each key of the one has an
-- equal value in the other.
unfoldable mutual
  unfolding lookup

  pub json_equal : Json → Json → Bool
  json_equal null null = true
  json_equal (bool true) (bool b) = b
  json_equal (bool false) (bool true) = false
  json_equal (bool false) (bool false) = true
  json_equal (number m) (number n) = str_eq m n
  json_equal (text s) (text t) = str_eq s t
  json_equal (array xs) (array ys) = items_equal xs ys
  json_equal (object fs) (object gs) = fields_count fs == fields_count gs && fields_equal fs gs
  json_equal _ _ = false

  pub items_equal : Items → Items → Bool
  items_equal nil nil = true
  items_equal (cons x xs) (cons y ys) = json_equal x y && items_equal xs ys
  items_equal _ _ = false

  pub fields_equal : Fields → Fields → Bool
  fields_equal end gs = true
  fields_equal (field name value rest) gs =
      same_field (lookup name gs) (λ w. json_equal value w) && fields_equal rest gs

-- two orders of the same fields
reordered :
    json_equal
      (object (field "a" null (field "b" (bool true) end)))
      (object (field "b" (bool true) (field "a" null end)))
    ≡ true
unfolding json_equal
reordered = refl
