-- ===== src/Paging/Coverage.antt =====
-- The pages of a list hold all of its rows, in their places (internal/paging/page.go).
use alcor_device_farm.Prelude.{
  ℕ, zero, suc, ◌+◌, ◌-◌, ◌*◌, ◌/◌, ◌^◌, ◌%◌, ◌≤◌, ◌<◌, ◌≡◌, refl, ◌∙◌, ap, true, some, List, [],
  ◌∷◌, arith, ltb,
}
use native.Mathlib.Nat.{div-add-mod', div-le_self, mod-lt}
use alcor_device_farm.Paging.{
  pos, max_size, Page, new_page, signed, offset, take, drop, get_elem?, window,
}

-- a small number as an int
signed-small : (x : ℕ) → x < 2 ^ 63 → signed (x % 2 ^ 64) ≡ pos x
unfolding signed
signed-small x h =
    let e : x % 2 ^ 64 ≡ x = omega arith in
    let f : ltb x (2 ^ 63) ≡ true = ground arith in rw (e, f) refl

-- below 2⁶³ the offset is what it should be
offset_exact :
    (p : Page) → (p.number - 1) * p.size < 2 ^ 63 → offset p ≡ pos ((p.number - 1) * p.size)
unfolding offset signed
offset_exact p h = signed-small ((p.number - 1) * p.size) h

module _ {A : Type 0} where
  get_elem?-take : (n : ℕ) (xs : List A) (j : ℕ) → j < n → get_elem? (take n xs) j ≡ get_elem? xs j
  unfolding take get_elem?
  get_elem?-take zero xs j h = absurd (omega arith)
  get_elem?-take (suc n) [] j h = refl
  get_elem?-take (suc n) (x ∷ xs) zero h = refl
  get_elem?-take (suc n) (x ∷ xs) (suc j) h = get_elem?-take n xs j (omega arith)

  get_elem?-drop :
      (k : ℕ) (xs : List A) (j i : ℕ) → k + j ≡ i → get_elem? (drop k xs) j ≡ get_elem? xs i
  unfolding drop get_elem?
  get_elem?-drop zero xs j i e = ap (get_elem? xs) (omega arith)
  get_elem?-drop (suc k) [] j i e = refl
  get_elem?-drop (suc k) (x ∷ xs) j zero e = absurd (omega arith)
  get_elem?-drop (suc k) (x ∷ xs) j (suc i) e = get_elem?-drop k xs j i (omega arith)

-- The page on which the row at place `i` stands, and that it stands there.
pub record OnPage {A : Type 0} (rows : List A) (size i : ℕ) : Type 0 where
  pub page : Page
  pub shown : List A
  pub place : ℕ
  pub is_page : new_page (i / size + 1) size ≡ some page
  pub is_int : page.number < 2 ^ 63
  pub is_window : window rows page ≡ some shown
  pub in_page : place < size
  pub is_row : get_elem? shown place ≡ get_elem? rows i

-- For a valid page size, the row at any place below 2⁶³ - 1 stands on the page with number
-- `i / size + 1`, which a Go int holds, which is accepted and whose window is not refused.
pub row-OnPage :
    {A : Type 0} (rows : List A) (size i : ℕ)
    → 1 ≤ size
    → size ≤ max_size
    → i < 2 ^ 63 - 1
    → OnPage rows size i
unfolding new_page signed window
row-OnPage {A} rows size i low high h =
    let q = i / size in
    let split : q * size + i % size ≡ i = div-add-mod' i size in
    let small : q ≤ i = div-le_self i size in
    let number_int : signed ((q + 1) % 2 ^ 64) ≡ pos (q + 1) =
      signed-small (q + 1) (omega (arith, small)) in
    let size_int : signed (size % 2 ^ 64) ≡ pos size = signed-small size (omega arith) in
    let page : Page = record { number = q + 1; size = size } in
    let at : (q + 1 - 1) * size ≡ q * size = ap (λ n. n * size) (omega arith) in
    let exact : offset page ≡ pos ((q + 1 - 1) * size) =
      offset_exact page (omega (arith, at, split)) in
    record {
      page = page;
      shown = take size (drop ((q + 1 - 1) * size) rows);
      place = i % size;
      is_int = omega (arith, small);
      is_page = rw (number_int, size_int) (ground arith);
      is_window = rw (exact, window) refl;
      in_page = mod-lt i low;
      is_row =
          get_elem?-take size (drop ((q + 1 - 1) * size) rows) (i % size) (mod-lt i low)
          ∙ get_elem?-drop ((q + 1 - 1) * size) rows (i % size) i (omega (arith, at, split));
    }
