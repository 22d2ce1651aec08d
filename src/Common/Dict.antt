-- ===== src/Common/Dict.antt =====
-- Go's map[string]V as an association list. A key is stored at most once by `insert`; the order of
-- entries stands for the order in which a range statement happens to visit them.
use Prim.Native.String.{String}
use mathlib.Core.Path.{◌≡◌, refl}
use mathlib.Core.Option.{Option, none, some}
use mathlib.Core.List.{List, [], ◌∷◌}
use native.Mathlib.Omega.{arith}
use text.Mathlib.Text.{◌==◌}
use text.Mathlib.TextEquality.{eq_iff}
use polaris_controller.Common.Tests.{if◌then◌else◌}

abbrev pub Dict {ℓ} : Type ℓ → Type ℓ
Dict V = List (String × V)

module _ {ℓ} {V : Type ℓ} where
  -- v, ok := m[key]
  unfoldable pub lookup : String → Dict V → Option V
  lookup key [] = none
  lookup key (entry ∷ rest) = if entry.0 == key then some entry.1 else lookup key rest

  -- m[key] = v
  unfoldable pub insert : String → V → Dict V → Dict V
  insert key v [] = (key, v) ∷ []
  insert key v (entry ∷ rest) =
      let later = insert key v rest in if entry.0 == key then (key, v) ∷ rest else entry ∷ later

  -- delete(m, key)
  unfoldable pub delete : String → Dict V → Dict V
  delete key [] = []
  delete key (entry ∷ rest) =
      let later = delete key rest in if entry.0 == key then later else entry ∷ later

  pub lookup-insert :
      (key sought : String) (v : V) (dict : Dict V)
      → lookup sought (insert key v dict) ≡ (if key == sought then some v else lookup sought dict)
  unfolding lookup insert
  lookup-insert key sought v [] = refl
  lookup-insert key sought v (entry ∷ rest) =
      let later = lookup-insert key sought v rest in
      ground (arith, later, eq_iff entry.0 key, eq_iff entry.0 sought, eq_iff key sought)

  pub lookup-delete :
      (key sought : String) (dict : Dict V)
      → lookup sought (delete key dict) ≡ (if key == sought then none else lookup sought dict)
  unfolding lookup delete
  lookup-delete key sought [] = ground arith
  lookup-delete key sought (entry ∷ rest) =
      let later = lookup-delete key sought rest in
      ground (arith, later, eq_iff entry.0 key, eq_iff entry.0 sought, eq_iff key sought)

pub ruleset dict_laws = (lookup-insert, lookup-delete)

-- m[k] of a map[string]string: "" where the key is missing.
abbrev pub or_empty : Option String → String
or_empty none = ""
or_empty (some v) = v

unfoldable pub index : String → Dict String → String
index k m = or_empty (lookup k m)

-- for k, v := range from { into[k] = v }
unfoldable pub merge {ℓ} : {V : Type ℓ} → Dict V → Dict V → Dict V
merge into [] = into
merge into ((k, v) ∷ from) = merge (insert k v into) from
