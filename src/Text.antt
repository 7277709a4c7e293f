-- ===== src/Text.antt =====
-- What the program uses of Go's package strings on whole texts, and the pattern of resource ids.
use alcor_device_farm.Prelude.{
  ℕ, suc, ◌≡◌, refl, Bool, true, false, ◌&&◌, ◌||◌, String, ltb, leb, ◌+◌, ◌==◌, if◌then◌else◌,
}
use Prim.Native.Char.{code}

-- unicode.IsSpace.
pub is_space : ℕ → Bool
is_space c =
    (leb 9 c && leb c 13)
    || c == 32
    || c == 0x85
    || c == 0xa0
    || c == 0x1680
    || (leb 0x2000 c && leb c 0x200a)
    || c == 0x2028
    || c == 0x2029
    || c == 0x202f
    || c == 0x205f
    || c == 0x3000

abbrev pub is_empty : String → Bool
is_empty String.[] = true
is_empty (String.◌∷◌ c s) = false

trim_left : String → String
unfolding is_space
trim_left String.[] = String.[]
trim_left (String.◌∷◌ c s) = if is_space (code c) then trim_left s else String.◌∷◌ c s

trim_right : String → String
unfolding is_space
trim_right String.[] = String.[]
trim_right (String.◌∷◌ c s) =
    let rest = trim_right s in
    if is_empty rest && is_space (code c) then String.[] else String.◌∷◌ c rest

-- strings.TrimSpace.
unfoldable pub trim_space : String → String
unfolding trim_left trim_right
trim_space s = trim_right (trim_left s)

abbrev pub count : String → ℕ
count String.[] = 0
count (String.◌∷◌ c s) = suc (count s)

-- the number of bytes of a code point in UTF-8
char_size : ℕ → ℕ
char_size c = if ltb c 0x80 then 1 else if ltb c 0x800 then 2 else if ltb c 0x10000 then 3 else 4

-- len
unfoldable pub size : String → ℕ
unfolding char_size
size String.[] = 0
size (String.◌∷◌ c s) = char_size (code c) + size s

-- [A-Za-z0-9_-]
is_id_char : ℕ → Bool
is_id_char c =
    (leb b'A' c && leb c b'Z')
    || (leb b'a' c && leb c b'z')
    || (leb b'0' c && leb c b'9')
    || c == b'_'
    || c == b'-'

all_id_chars : String → Bool
unfolding is_id_char
all_id_chars String.[] = true
all_id_chars (String.◌∷◌ c s) = is_id_char (code c) && all_id_chars s

-- ^[A-Za-z0-9_-]{16,64}$
unfoldable pub is_identifier : String → Bool
unfolding all_id_chars
is_identifier s = leb 16 (count s) && leb (count s) 64 && all_id_chars s

trims : trim_space "  a b " ≡ "a b"
unfolding trim_space
trims = refl

identifies : is_identifier "device_0123456789" ≡ true
unfolding is_identifier
identifies = refl

rejects : is_identifier "device 0123456789" ≡ false
unfolding is_identifier
rejects = refl

-- strings.HasPrefix
unfoldable pub has_prefix : String → String → Bool
has_prefix s String.[] = true
has_prefix String.[] (String.◌∷◌ d prefix) = false
has_prefix (String.◌∷◌ c s) (String.◌∷◌ d prefix) = code c == code d && has_prefix s prefix

-- strings.Contains
unfoldable pub contains_text : String → String → Bool
unfolding has_prefix
contains_text String.[] part = is_empty part
contains_text (String.◌∷◌ c s) part = has_prefix (String.◌∷◌ c s) part || contains_text s part

contains_test : contains_text "x_token" "token" ≡ true
unfolding contains_text
contains_test = refl

-- s + t
abbrev pub join : String → String → String
join String.[] t = t
join (String.◌∷◌ c s) t = String.◌∷◌ c (join s t)
