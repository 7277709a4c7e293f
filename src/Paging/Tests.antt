-- ===== src/Paging/Tests.antt =====
-- Pages of a concrete list, and a page number that makes the offset wrap around.
use alcor_device_farm.Prelude.{ℕ, ◌≡◌, refl, List, [], ◌∷◌, arith}
use alcor_device_farm.Paging.{offset, negsuc}
use alcor_device_farm.Paging.Coverage.{OnPage, row-OnPage}

abbrev five_rows : List ℕ
five_rows = 10 ∷ 11 ∷ 12 ∷ 13 ∷ 14 ∷ []

row-OnPage_example : OnPage five_rows 2 3
row-OnPage_example = row-OnPage five_rows 2 3 (omega arith) (omega arith) (omega arith)

-- The page with the largest number has the offset -100.
wraps : offset (record { number = 9223372036854775807; size = 50 }) ≡ negsuc 99
unfolding offset
wraps = refl
