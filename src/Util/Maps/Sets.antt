-- ===== src/Util/Maps/Sets.antt =====
-- pkg/util/map.go: Set and SyncSet.
use polaris_controller.Common.{ℕ, Bool, List, [], map, length}
use polaris_controller.Util.Maps.{Comparable, GoMap, get, set, remove, is_some}

-- Range visits the elements of ToSlice.
pub record Set (K : Type 0) : Type 0 where
  pub container : GoMap K (Unit {0})

module _ {K : Type 0} (keys : Comparable K) where
  abbrev pub new_set : Set K
  new_set = record { container = [] }

  unfoldable pub add : K → Set K → Set K
  add val set_ = record { container = set keys val tt set_.container }

  unfoldable pub delete : K → Set K → Set K
  delete val set_ = record { container = remove keys val set_.container }

  unfoldable pub to_slice : Set K → List K
  to_slice set_ = map (λ entry. entry.0) set_.container

  unfoldable pub len : Set K → ℕ
  len set_ = length set_.container

  unfoldable pub contains : K → Set K → Bool
  contains val set_ = is_some (get keys val set_.container)
