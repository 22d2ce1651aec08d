-- ===== src/Api/Split/Batches.antt =====
-- splitArray of pkg/polarisapi/service_api.go: the batches are the list again, and none is too long.
use native.Mathlib.Nat.{div-add-mod, mod-lt}
use mathlib.Core.List.{append-nil, flatten}
use polaris_controller.Common.{
  ℕ, zero, suc, ◌+◌, ◌-◌, ◌*◌, ◌≤◌, ◌<◌, ◌≡◌, refl, sym, ap, List, [], ◌∷◌, ◌++◌, arith, length,
  All, eqb, true, false,
}
use polaris_controller.Common.Int.{pos}
use polaris_controller.Api.Split.{take, drop, slice, page_count, split_from, split_array}

module _ {ℓ} {A : Type ℓ} where
  take_all : (n : ℕ) (xs : List A) → length xs ≤ n → take n xs ≡ xs
  take_all zero [] h = refl
  take_all zero (x ∷ xs) h = absurd (omega arith)
  take_all (suc n) [] h = refl
  take_all (suc n) (x ∷ xs) h = ap (λ ys. x ∷ ys) (take_all n xs (omega arith))

  length-drop : (n : ℕ) (xs : List A) → length (drop n xs) ≡ length xs - n
  length-drop zero xs = omega arith
  length-drop (suc n) [] = omega arith
  length-drop (suc n) (x ∷ xs) = omega (arith, length-drop n xs)

  length-take-le : (n : ℕ) (xs : List A) → length (take n xs) ≤ n
  length-take-le zero xs = omega arith
  length-take-le (suc n) [] = omega arith
  length-take-le (suc n) (x ∷ xs) = omega (arith, length-take-le n xs)

  drop-nil : (n : ℕ) → drop {A = A} n [] ≡ []
  drop-nil zero = refl
  drop-nil (suc n) = refl

  drop_all : (n : ℕ) (xs : List A) → length xs ≤ n → drop n xs ≡ []
  drop_all zero [] h = refl
  drop_all zero (x ∷ xs) h = absurd (omega arith)
  drop_all (suc n) [] h = refl
  drop_all (suc n) (x ∷ xs) h = drop_all n xs (omega arith)

  drop-drop : (m n : ℕ) (xs : List A) → drop n (drop m xs) ≡ drop (m + n) xs
  drop-drop zero n xs = let e : 0 + n ≡ n = omega arith in rw e
  drop-drop (suc m) n [] = let e : suc m + n ≡ suc (m + n) = omega arith in rw (e, drop-nil n)
  drop-drop (suc m) n (x ∷ xs) =
      let e : suc m + n ≡ suc (m + n) = omega arith in rw e (drop-drop m n xs)

  take-append-drop : (n : ℕ) (xs : List A) → take n xs ++ drop n xs ≡ xs
  take-append-drop zero xs = refl
  take-append-drop (suc n) [] = refl
  take-append-drop (suc n) (x ∷ xs) = ap (λ ys. x ∷ ys) (take-append-drop n xs)

  -- The first batch with what follows it.
  first_batch :
      (size i : ℕ) (xs : List A)
      → slice (i * size) (i * size + size) xs ++ drop ((i + 1) * size) xs ≡ drop (i * size) xs
  unfolding slice
  first_batch size i xs =
      let e : i * size + size - i * size ≡ size = omega arith in
      let next : (i + 1) * size ≡ i * size + size = omega arith in
      rw (e, next, ← drop-drop (i * size) size xs) (take-append-drop size (drop (i * size) xs))

  last_batch : (start : ℕ) (xs : List A) → slice start (length xs) xs ≡ drop start xs
  unfolding slice
  last_batch start xs =
      take_all (length xs - start) (drop start xs) (omega (arith, length-drop start xs))

  flatten-split_from :
      (xs : List A) (size page i rounds : ℕ)
      → i + rounds ≡ page
      → length xs ≤ page * size
      → flatten (split_from xs size page i rounds) ≡ drop (i * size) xs
  unfolding split_from flatten
  flatten-split_from xs size page i zero e h =
      let done : page ≡ i = omega arith in sym (drop_all (i * size) xs (rw (← done) h))
  flatten-split_from xs size page i (suc zero) e h =
      let here : eqb i (page - 1) ≡ true = ground arith in
      rw (here, last_batch (i * size) xs) (append-nil (drop (i * size) xs))
  flatten-split_from xs size page i (suc (suc rounds)) e h =
      let more : eqb i (page - 1) ≡ false = ground arith in
      rw (more, flatten-split_from xs size page (i + 1) (suc rounds) (omega arith) h)
        (first_batch size i xs)

-- The pages hold the list, and their number is the least such.
page_bounds {ℓ} :
    {A : Type ℓ} (int_of_inf : ℕ) (xs : List A) (k : ℕ)
    → (length xs ≤ page_count int_of_inf xs (pos (suc k)) * suc k)
      × (page_count int_of_inf xs (pos (suc k)) * suc k ≤ length xs + k)
unfolding page_count
page_bounds int_of_inf xs k =
    let split = div-add-mod (length xs + k) (suc k) in
    let small = mod-lt (length xs + k) {m = suc k} (omega arith) in omega (arith, split, small)

-- For a positive size the batches of splitArray are, one after the other, the list itself: no
-- instance is lost, repeated or moved.
pub flatten-split_array {ℓ} :
    {A : Type ℓ} (int_of_inf : ℕ) (xs : List A) (size : ℕ)
    → 0 < size
    → flatten (split_array int_of_inf xs (pos size)) ≡ xs
unfolding split_array
flatten-split_array int_of_inf xs zero h = absurd (omega arith)
flatten-split_array int_of_inf xs (suc k) h =
    let page = page_count int_of_inf xs (pos (suc k)) in
    let start : 0 * suc k ≡ 0 = omega arith in
    rw start at
      (flatten-split_from xs (suc k) page 0 page (omega arith) (page_bounds int_of_inf xs k).0)

module _ {ℓ} {A : Type ℓ} where
  split_from-short :
      (xs : List A) (size page i rounds : ℕ)
      → i + rounds ≡ page
      → length xs ≤ page * size
      → All (λ batch. length batch ≤ size) (split_from xs size page i rounds)
  unfolding split_from slice
  split_from-short xs size page i zero e h = tt
  split_from-short xs size page i (suc zero) e h =
      let here : eqb i (page - 1) ≡ true = ground arith in
      let last : page * size ≡ i * size + size = rw (← e) (omega arith) in
      rw here (omega (arith, last, length-take-le (length xs - i * size) (drop (i * size) xs)), tt)
  split_from-short xs size page i (suc (suc rounds)) e h =
      let more : eqb i (page - 1) ≡ false = ground arith in
      rw more (
        omega (arith, length-take-le (i * size + size - i * size) (drop (i * size) xs)),
        split_from-short xs size page (i + 1) (suc rounds) (omega arith) h,
      )

-- For a positive size no batch of splitArray has more instances than the size.
pub split_array-short {ℓ} :
    {A : Type ℓ} (int_of_inf : ℕ) (xs : List A) (size : ℕ)
    → 0 < size
    → All (λ batch. length batch ≤ size) (split_array int_of_inf xs (pos size))
unfolding split_array
split_array-short int_of_inf xs zero h = absurd (omega arith)
split_array-short int_of_inf xs (suc k) h =
    let page = page_count int_of_inf xs (pos (suc k)) in
    split_from-short xs (suc k) page 0 page (omega arith) (page_bounds int_of_inf xs k).0
