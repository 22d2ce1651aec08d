-- ===== src/Inject/JavaAgent/Init/Parts.antt =====
-- The parts of an address or an image around a colon (javaagent/patch.go).
use Prim.Native.Char.{Char, code}
use mathlib.Core.Path.{subst}
use text.Mathlib.TextLemmas.{nil-append, cons-append}
use polaris_controller.Common.{
  String, ◌≡◌, refl, sym, ap, ◌∙◌, eqb, List, [], ◌∷◌, Bool-cases, inl, inr,
}
use polaris_controller.Util.Text.{◌⋯◌}
use polaris_controller.Util.Split.{split}

-- A text with a separator in it: a host and a port.
abbrev pub HasParts : String → Type 0
HasParts s =
    (host : String) × (port : String) × (rest : List String) × (split b':' s ≡ host ∷ port ∷ rest)

pub split-nonempty : (s : String) → (w : String) × (rest : List String) × (split b':' s ≡ w ∷ rest)
unfolding split
split-nonempty String.[] = ("", [], refl)
split-nonempty (String.◌∷◌ c s) =
    let (w, rest, e) = split-nonempty s in
    elim (Bool-cases (eqb (code c) b':')) [
      | inl here ↦ rw here ("", split b':' s, refl)
      | inr other ↦ rw (other, e) (String.◌∷◌ c w, rest, refl)
    ]

cons-HasParts : (c : Char) (s : String) → HasParts s → HasParts (String.◌∷◌ c s)
unfolding split
cons-HasParts c s (w, v, rest, e) = elim (Bool-cases (eqb (code c) b':')) [
  | inl here ↦ ("", w, v ∷ rest, rw (here, e) refl)
  | inr other ↦ (String.◌∷◌ c w, v, rest, rw (other, e) refl)
]

append-HasParts : (name s : String) → HasParts s → HasParts (name ⋯ s)
append-HasParts String.[] s h = subst HasParts (sym (nil-append s)) h
append-HasParts (String.◌∷◌ c name) s h =
    subst HasParts (sym (cons-append c name s))
      (cons-HasParts c (name ⋯ s) (append-HasParts name s h))

colon-HasParts : (tag : String) → HasParts (String.◌∷◌ ":" tag)
unfolding split
colon-HasParts tag = let (w, rest, e) = split-nonempty tag in ("", w, rest, rw e refl)

-- The image that the annotation makes has a tag.
pub joined-HasParts : (name tag : String) → HasParts (name ⋯ ":" ⋯ tag)
joined-HasParts name tag = append-HasParts name (":" ⋯ tag) (
    subst HasParts (sym (cons-append ":" "" tag ∙ ap (String.◌∷◌ ":") (nil-append tag)))
      (colon-HasParts tag))
