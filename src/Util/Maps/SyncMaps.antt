-- ===== src/Util/Maps/SyncMaps.antt =====
-- pkg/util/map.go: SyncMap and Map.
use polaris_controller.Common.{ℕ, Bool, true, false, if◌then◌else◌, List, [], ◌∷◌, map, length}
use polaris_controller.Util.Maps.{Comparable, GoMap, get, set, remove, is_some, or_zero}

pub record SyncMap (K V : Type 0) : Type 0 where
  pub m : GoMap K V

module _ {K V : Type 0} (keys : Comparable K) (zero : V) where
  abbrev pub new_sync_map : SyncMap K V
  new_sync_map = record { m = [] }

  -- The value, and whether it is there.
  unfoldable pub load : K → SyncMap K V → V × Bool
  load key s = let found = get keys key s.m in (or_zero zero found, is_some found)

  unfoldable pub store : K → V → SyncMap K V → SyncMap K V
  store key val s = record { m = set keys key val s.m }

  -- The value that is there afterwards, and whether it was computed.
  unfoldable pub compute_if_absent : K → (K → V) → SyncMap K V → (V × Bool) × SyncMap K V
  compute_if_absent k supplier s =
      let found = get keys k s.m in
      if is_some found
      then ((or_zero zero found, false), s)
      else ((supplier k, true), record { m = set keys k (supplier k) s.m })

  unfoldable pub delete : K → SyncMap K V → (V × Bool) × SyncMap K V
  delete key s =
      let found = get keys key s.m in
      ((or_zero zero found, is_some found), record { m = remove keys key s.m })

  unfoldable pub values : SyncMap K V → List V
  values s = map (λ entry. entry.1) s.m

  unfoldable pub len : SyncMap K V → ℕ
  len s = length s.m

  -- The copy that Range walks, and that ToMap returns.
  copy_onto : GoMap K V → GoMap K V → GoMap K V
  copy_onto m [] = m
  copy_onto m ((k, v) ∷ rest) = copy_onto (set keys k v m) rest

  unfoldable pub to_map : SyncMap K V → GoMap K V
  unfolding copy_onto
  to_map s = copy_onto [] s.m
