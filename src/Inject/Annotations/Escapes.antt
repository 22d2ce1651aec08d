-- ===== src/Inject/Annotations/Escapes.antt =====
-- Escaped keys read back (RFC 6901).
use Prim.Native.Char.{Char, code}
use text.Mathlib.TextEquality.{Char-path}
use polaris_controller.Common.{
  String, ◌≡◌, refl, sym, ap, true, false, eqb, if◌then◌else◌, arith, Bool-cases, inl, inr,
}
use polaris_controller.Inject.Annotations.{replace_tilde, replace_slash, escape_json_pointer_value}

-- The reading of a reference token: "~1" is a slash, and "~0" a tilde.
unfoldable pub unescape : String → String
unescape String.[] = ""
unescape (String.◌∷◌ c String.[]) = String.◌∷◌ c ""
unescape (String.◌∷◌ c (String.◌∷◌ d s)) =
    let both = unescape s in
    let later = unescape (String.◌∷◌ d s) in
    if eqb (code c) b'~'
    then (if eqb (code d) b'1' then String.◌∷◌ "/" both else String.◌∷◌ "~" both)
    else String.◌∷◌ c later

escape-tilde :
    (c : Char) (s : String)
    → eqb (code c) b'~' ≡ true
    → escape_json_pointer_value (String.◌∷◌ c s)
      ≡ String.◌∷◌ "~" (String.◌∷◌ "0" (escape_json_pointer_value s))
unfolding escape_json_pointer_value replace_tilde replace_slash
escape-tilde c s h = rw h refl

escape-slash :
    (c : Char) (s : String)
    → eqb (code c) b'/' ≡ true
    → escape_json_pointer_value (String.◌∷◌ c s)
      ≡ String.◌∷◌ "~" (String.◌∷◌ "1" (escape_json_pointer_value s))
unfolding escape_json_pointer_value replace_tilde replace_slash
escape-slash c s h = let other : eqb (code c) b'~' ≡ false = ground arith in rw (other, h) refl

escape-other :
    (c : Char) (s : String)
    → eqb (code c) b'~' ≡ false
    → eqb (code c) b'/' ≡ false
    → escape_json_pointer_value (String.◌∷◌ c s) ≡ String.◌∷◌ c (escape_json_pointer_value s)
unfolding escape_json_pointer_value replace_tilde replace_slash
escape-other c s h k = rw (h, k) refl

unescape-other :
    (c : Char) (s : String)
    → eqb (code c) b'~' ≡ false
    → unescape (String.◌∷◌ c s) ≡ String.◌∷◌ c (unescape s)
unfolding unescape
unescape-other c String.[] h = refl
unescape-other c (String.◌∷◌ d s) h = rw h refl

eqb_code : (c d : Char) → eqb (code c) (code d) ≡ true → c ≡ d
eqb_code c d h = Char-path c d (ground arith)

unescape-tilde :
    (s : String) → unescape (String.◌∷◌ "~" (String.◌∷◌ "0" s)) ≡ String.◌∷◌ "~" (unescape s)
unfolding unescape
unescape-tilde s = refl

unescape-slash :
    (s : String) → unescape (String.◌∷◌ "~" (String.◌∷◌ "1" s)) ≡ String.◌∷◌ "/" (unescape s)
unfolding unescape
unescape-slash s = refl

unescape-empty : unescape (escape_json_pointer_value String.[]) ≡ String.[]
unfolding unescape escape_json_pointer_value replace_tilde replace_slash
unescape-empty = refl

-- A key that is escaped for a path is read back as it was, so that the operations on two different
-- keys have different paths.
pub unescape-escape_json_pointer_value : (s : String) → unescape (escape_json_pointer_value s) ≡ s
unescape-escape_json_pointer_value String.[] = unescape-empty
unescape-escape_json_pointer_value (String.◌∷◌ c s) =
    let back = unescape-escape_json_pointer_value s in
    elim (Bool-cases (eqb (code c) b'~')) [
      | inl tilde ↦
          rw (escape-tilde c s tilde, unescape-tilde (escape_json_pointer_value s), back)
            (ap (λ d. String.◌∷◌ d s) (sym (eqb_code c "~" tilde)))
      | inr not_tilde ↦ elim (Bool-cases (eqb (code c) b'/')) [
        | inl slash ↦
            rw (escape-slash c s slash, unescape-slash (escape_json_pointer_value s), back)
              (ap (λ d. String.◌∷◌ d s) (sym (eqb_code c "/" slash)))
        | inr other ↦
            rw
              (
                escape-other c s not_tilde other,
                unescape-other c (escape_json_pointer_value s) not_tilde,
                back,
              )
              refl
      ]
    ]
