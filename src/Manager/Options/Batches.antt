-- ===== src/Manager/Options/Batches.antt =====
-- The batches of instances that the option concurrency-polaris-size leads to (polaris.go and
-- pkg/polarisapi/service_api.go).
use mathlib.Core.List.{flatten}
use polaris_controller.Common.{
  ℕ, zero, suc, ◌≤◌, ◌≡◌, ◌≢◌, refl, Bool-cases, inl, inr, if◌then◌else◌, some, List, [], ◌∷◌,
  length, All, true, ltb, arith,
}
use polaris_controller.Common.Int.{ℤ, pos, negsuc, int_ltb}
use polaris_controller.Api.Split.{split_array, split_from, page_count}
use polaris_controller.Api.Split.Batches.{flatten-split_array, split_array-short}
use polaris_controller.Manager.Options.{PolarisConfiguration, at_most_100, apply_to}

module _ {A : Type 0} (int_of_inf : ℕ) (xs : List A) where
  shorter :
      (n m : ℕ) (bs : List (List A))
      → n ≤ m
      → All (λ batch. length batch ≤ n) bs
      → All (λ batch. length batch ≤ m) bs
  shorter n m [] le h = tt
  shorter n m (b ∷ bs) le (short, h) = (omega arith, shorter n m bs le h)

  no_batches :
      (n : ℕ)
      → All (λ batch. length batch ≤ 100) (split_array int_of_inf xs (negsuc n))
        × (flatten (split_array int_of_inf xs (negsuc n)) ≡ [])
  unfolding split_array page_count split_from flatten
  no_batches n = (tt, refl)

  batches_lem :
      (size : ℤ)
      → size ≢ pos 0
      → All (λ batch. length batch ≤ 100) (split_array int_of_inf xs (at_most_100 size))
        × (flatten (split_array int_of_inf xs (at_most_100 size))
            ≡ (if int_ltb (pos 0) size then xs else []))
  unfolding at_most_100
  batches_lem (negsuc n) h = no_batches n
  batches_lem (pos zero) h = absurd (h refl)
  batches_lem (pos (suc n)) h =
      let positive : ltb 0 (suc n) ≡ true = ground arith in
      rw positive (elim (Bool-cases (ltb 100 (suc n))) [
        | inl large ↦ rw large (
          split_array-short int_of_inf xs 100 (omega arith),
          flatten-split_array int_of_inf xs 100 (omega arith),
        )
        | inr small ↦ rw small (
          shorter (suc n) 100 (split_array int_of_inf xs (pos (suc n))) (ground arith)
              (split_array-short int_of_inf xs (suc n) (omega arith)),
          flatten-split_array int_of_inf xs (suc n) (omega arith),
        )
      ])

  -- Whatever the option says, unless it is 0, no batch that is made with the applied options has more than
  -- 100 instances; the batches are together the list if the option is at least 1, and no instance is in
  -- one if it is negative. For 0 the platform decides.
  pub split_array-apply_to :
      (o cfg : PolarisConfiguration)
      → o.size ≢ pos 0
      → All (λ batch. length batch ≤ 100) (split_array int_of_inf xs (apply_to (some o) cfg).size)
        × (flatten (split_array int_of_inf xs (apply_to (some o) cfg).size)
            ≡ (if int_ltb (pos 0) o.size then xs else []))
  unfolding apply_to
  split_array-apply_to o cfg h = batches_lem o.size h
