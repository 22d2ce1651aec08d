-- ===== src/Util/Maps.antt =====
-- pkg/util/map.go: the sets and the maps. A Go map is a list of entries, in the order in which a range
-- statement happens to visit them; the methods hold the lock of their set or map from the first to the
-- last statement, so that each is one step.
pub mod Sets
pub mod SyncMaps
pub mod Segments
pub mod Entries
pub mod Counts
pub mod Refinement
use polaris_controller.Common.{
  ◌≡◌, ◌↔◌, Bool, true, false, if◌then◌else◌, Option, none, some, List, [], ◌∷◌,
}

-- Go's comparable: the keys are compared by ==.
pub record Comparable {ℓ} (K : Type ℓ) : Type ℓ where
  pub same : K → K → Bool
  pub same_iff : (a b : K) → (same a b ≡ true) ↔ (a ≡ b)

abbrev pub GoMap : Type 0 → Type 0 → Type 0
GoMap K V = List (K × V)

module _ {K V : Type 0} (keys : Comparable K) where
  -- v, ok := m[k]
  unfoldable pub get : K → GoMap K V → Option V
  get k [] = none
  get k (entry ∷ rest) = if keys.same entry.0 k then some entry.1 else get k rest

  -- m[k] = v
  unfoldable pub set : K → V → GoMap K V → GoMap K V
  set k v [] = (k, v) ∷ []
  set k v (entry ∷ rest) =
      let later = set k v rest in if keys.same entry.0 k then (k, v) ∷ rest else entry ∷ later

  -- delete(m, k)
  unfoldable pub remove : K → GoMap K V → GoMap K V
  remove k [] = []
  remove k (entry ∷ rest) =
      let later = remove k rest in if keys.same entry.0 k then later else entry ∷ later

-- _, ok := m[k]
abbrev pub is_some {ℓ} : {A : Type ℓ} → Option A → Bool
is_some none = false
is_some (some a) = true

abbrev pub or_zero {ℓ} : {A : Type ℓ} → A → Option A → A
or_zero zero none = zero
or_zero zero (some a) = a
