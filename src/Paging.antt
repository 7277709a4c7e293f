-- ===== src/Paging.antt =====
-- internal/paging/page.go: the window of a list endpoint. Go's `int` has 64 bits, and the products
-- wrap around.
pub mod Coverage
mod Tests
use alcor_device_farm.Prelude.{
  ℕ, zero, suc, ◌+◌, ◌-◌, ◌*◌, ◌^◌, ◌%◌, Bool, true, false, ◌||◌, Option, none, some, List, [], ◌∷◌,
  ltb, if◌then◌else◌,
}

pub data ℤ : Type 0 where
  pos : ℕ → ℤ
  negsuc : ℕ → ℤ

abbrev pub max_size : ℕ
max_size = 200

-- Page; New lets only positive numbers in.
pub record Page : Type 0 where
  pub number : ℕ
  pub size : ℕ

-- an integer modulo 2⁶⁴ as a signed one
unfoldable pub signed : ℕ → ℤ
signed x = if ltb x (2 ^ 63) then pos x else negsuc (2 ^ 64 - x - 1)

-- New for two integers that a Go `int` can hold
abbrev page_of : ℤ → ℤ → Option Page
page_of (pos number) (pos size) =
    if ltb number 1 || ltb size 1 || ltb max_size size
    then none
    else some (record { number = number; size = size })
page_of _ _ = none

-- New, on the bits of two ints: of each argument only its value modulo 2⁶⁴ counts, as a signed one.
unfoldable pub new_page : ℕ → ℕ → Option Page
unfolding signed
new_page number size = page_of (signed (number % 2 ^ 64)) (signed (size % 2 ^ 64))

-- Limit
abbrev pub limit : Page → ℕ
limit p = p.size

-- Offset
unfoldable pub offset : Page → ℤ
unfolding signed
offset p = signed (((p.number - 1) * p.size) % 2 ^ 64)

module _ {ℓ} {A : Type ℓ} where
  unfoldable pub take : ℕ → List A → List A
  take zero xs = []
  take (suc n) [] = []
  take (suc n) (x ∷ xs) = x ∷ take n xs

  unfoldable pub drop : ℕ → List A → List A
  drop zero xs = xs
  drop (suc n) [] = []
  drop (suc n) (x ∷ xs) = drop n xs

  unfoldable pub get_elem? : List A → ℕ → Option A
  get_elem? [] n = none
  get_elem? (x ∷ xs) zero = some x
  get_elem? (x ∷ xs) (suc n) = get_elem? xs n

  -- LIMIT and OFFSET of SQL, which refuses a negative offset
  unfoldable pub window : List A → Page → Option (List A)
  window rows p = elim (offset p) [ pos k ↦ some (take (limit p) (drop k rows)) | negsuc k ↦ none ]
