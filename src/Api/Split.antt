-- ===== src/Api/Split.antt =====
-- pkg/polarisapi/service_api.go: splitArray, which cuts the instances of a request into batches.
-- int(math.Ceil(float64(length) / float64(size))) is the quotient rounded up while the length is
-- below 2^53. Go leaves the conversion of the infinity that a size of 0 gives to the platform: the
-- number of rounds that it leads to is a parameter, 0 on amd64 and 2^63 - 1 on arm64. Without
-- instances the quotient by 0 is NaN, of which both make an integer that is not positive.
pub mod Batches
use polaris_controller.Common.{
  ℕ, zero, suc, ◌+◌, ◌-◌, ◌*◌, ◌/◌, List, [], ◌∷◌, eqb, if◌then◌else◌, length,
}
use polaris_controller.Common.Int.{ℤ, pos, negsuc}

-- The size of a batch; for a negative one the loop makes no round.
abbrev pub batch_size : ℤ → ℕ
batch_size (pos n) = n
batch_size (negsuc n) = 0

module _ {ℓ} {A : Type ℓ} where
  abbrev pub take : ℕ → List A → List A
  take zero xs = []
  take (suc n) [] = []
  take (suc n) (x ∷ xs) = x ∷ take n xs

  abbrev pub drop : ℕ → List A → List A
  drop zero xs = xs
  drop (suc n) [] = []
  drop (suc n) (x ∷ xs) = drop n xs

  -- instances[start:end]
  unfoldable pub slice : ℕ → ℕ → List A → List A
  slice start end xs = take (end - start) (drop start xs)

  by_zero : ℕ → List A → ℕ
  by_zero int_of_inf [] = 0
  by_zero int_of_inf (x ∷ xs) = int_of_inf

  -- page, or 0 where it is negative
  unfoldable pub page_count : ℕ → List A → ℤ → ℕ
  unfolding by_zero
  page_count int_of_inf xs (pos zero) = by_zero int_of_inf xs
  page_count int_of_inf xs (pos (suc k)) = (length xs + k) / suc k
  page_count int_of_inf xs (negsuc k) = 0

  -- The loop at round `i` with `rounds` rounds left of `page`.
  unfoldable pub split_from : List A → ℕ → ℕ → ℕ → ℕ → List (List A)
  split_from xs size page i zero = []
  split_from xs size page i (suc rounds) =
      slice (i * size) (if eqb i (page - 1) then length xs else i * size + size) xs
      ∷ split_from xs size page (i + 1) rounds

  unfoldable pub split_array : ℕ → List A → ℤ → List (List A)
  split_array int_of_inf xs size =
      let page = page_count int_of_inf xs size in split_from xs (batch_size size) page 0 page
