-- ===== src/Util/Split.antt =====
-- Go's strings.Split, strings.TrimSpace and bufio.ScanLines, as far as the program uses them. A line is
-- taken to be shorter than the 64 KB at which a bufio.Scanner gives up.
use Prim.Native.Char.{Char, code}
use polaris_controller.Common.{
  ℕ, zero, suc, String, Bool, false, ◌&&◌, ◌||◌, ◌==◌, eqb, leb, any, if◌then◌else◌, List, [], ◌∷◌,
}
use polaris_controller.Common.Outcome.{Outcome, ok, panic}

abbrev pub onto_first : Char → List String → List String
onto_first c [] = String.◌∷◌ c "" ∷ []
onto_first c (w ∷ words) = String.◌∷◌ c w ∷ words

-- strings.Split at a character: there is always a first part.
unfoldable pub split : ℕ → String → List String
split separator String.[] = "" ∷ []
split separator (String.◌∷◌ c s) =
    let rest = split separator s in if eqb (code c) separator then "" ∷ rest else onto_first c rest

-- parts[i], with the panic of an index out of range
unfoldable pub part : ℕ → List String → Outcome String
part i [] = panic
part zero (w ∷ words) = ok w
part (suc i) (w ∷ words) = part i words

-- unicode.IsSpace
abbrev pub is_space : ℕ → Bool
is_space c =
    (leb 9 c && leb c 13)
    || (leb 8192 c && leb c 8202)
    || any (eqb c) (32 ∷ 133 ∷ 160 ∷ 5760 ∷ 8232 ∷ 8233 ∷ 8239 ∷ 8287 ∷ 12288 ∷ [])

trim_left : String → String
trim_left String.[] = ""
trim_left (String.◌∷◌ c s) =
    let rest = trim_left s in if is_space (code c) then rest else String.◌∷◌ c s

trim_right : (Char → Bool) → String → String
trim_right p String.[] = ""
trim_right p (String.◌∷◌ c s) =
    let rest = trim_right p s in if rest == "" && p c then "" else String.◌∷◌ c rest

-- strings.TrimSpace
unfoldable pub trim_space : String → String
unfolding trim_left trim_right
trim_space s = trim_right (λ c. is_space (code c)) (trim_left s)

drop_return : String → String
drop_return String.[] = ""
drop_return (String.◌∷◌ c s) =
    let rest = drop_return s in if eqb (code c) 13 && s == "" then "" else String.◌∷◌ c rest

-- The text after the last end of line is a line only if there is some.
unfoldable pub scan_lines : List String → List String
unfolding drop_return
scan_lines [] = []
scan_lines (l ∷ []) = if l == "" then [] else drop_return l ∷ []
scan_lines (l ∷ m ∷ rest) = drop_return l ∷ scan_lines (m ∷ rest)

unfoldable pub lines : String → List String
lines s = scan_lines (split 10 s)

-- strings.HasPrefix(s, "#")
unfoldable pub is_comment : String → Bool
is_comment String.[] = false
is_comment (String.◌∷◌ c s) = eqb (code c) b'#'
