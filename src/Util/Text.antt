-- ===== src/Util/Text.antt =====
-- The standard library's text functions that the program uses: strconv.Itoa and strconv.Atoi,
-- fmt.Sprintf of a number, strings.Split at a dash.
use Prim.Native.Char.{Char, code}
use Prim.Native.String
use polaris_controller.Common.{
  ℕ, zero, suc, ◌+◌, ◌-◌, ◌*◌, ◌/◌, ◌%◌, ◌^◌, String, Bool, false, ◌&&◌, ◌||◌, eqb, ltb, leb,
  if◌then◌else◌, Option, none, some,
}
use polaris_controller.Common.Int.{ℤ, pos, negsuc}

infixr 66 ◌⋯◌
-- Concatenation of strings.
abbrev pub ◌⋯◌ : String → String → String
s ⋯ t = String.◌++◌ s t

abbrev pub push : String → Char → String
push s c = s ⋯ (String.◌∷◌ c "")

-- The decimal digit of a number below 10.
abbrev pub digit : ℕ → String
digit zero = "0"
digit (suc zero) = "1"
digit (suc (suc zero)) = "2"
digit (suc (suc (suc zero))) = "3"
digit (suc (suc (suc (suc zero)))) = "4"
digit (suc (suc (suc (suc (suc zero))))) = "5"
digit (suc (suc (suc (suc (suc (suc zero)))))) = "6"
digit (suc (suc (suc (suc (suc (suc (suc zero))))))) = "7"
digit (suc (suc (suc (suc (suc (suc (suc (suc zero)))))))) = "8"
digit (suc (suc (suc (suc (suc (suc (suc (suc (suc n))))))))) = "9"

-- The digits of `n`, with one unit of fuel for each.
decimal : ℕ → ℕ → String
decimal zero n = ""
decimal (suc fuel) n =
    let front = decimal fuel (n / 10) in if ltb n 10 then digit n else front ⋯ digit (n % 10)

-- strconv.Itoa at a number that is not negative; `n` has at most `n + 1` digits.
unfoldable pub itoa : ℕ → String
unfolding decimal
itoa n = decimal (suc n) n

-- The number that a run of digits stands for.
unfoldable pub read_digits : ℕ → String → Option ℕ
read_digits acc String.[] = some acc
read_digits acc (String.◌∷◌ c s) =
    let rest = read_digits (acc * 10 + (code c - b'0')) s in
    if leb b'0' (code c) && leb (code c) b'9' then rest else none

-- The range of int: 64 bits.
unfoldable pub positive : Option ℕ → Option ℤ
positive none = none
positive (some n) = if ltb n (2 ^ 63) then some (pos n) else none

unfoldable pub negative : Option ℕ → Option ℤ
negative none = none
negative (some zero) = some (pos 0)
negative (some (suc n)) = if ltb n (2 ^ 63) then some (negsuc n) else none

digits_only : String → Option ℕ
digits_only String.[] = none
digits_only (String.◌∷◌ c s) = read_digits 0 (String.◌∷◌ c s)

-- strconv.Atoi: an optional sign, and at least one digit; `none` is its error.
unfoldable pub atoi : String → Option ℤ
unfolding read_digits positive negative digits_only
atoi String.[] = none
atoi (String.◌∷◌ c s) =
    if eqb (code c) b'-'
    then negative (digits_only s)
    else if eqb (code c) b'+'
    then positive (digits_only s)
    else positive (read_digits 0 (String.◌∷◌ c s))

last_part_from : String → Bool → String → String
last_part_from cur seen String.[] = if seen then cur else ""
last_part_from cur seen (String.◌∷◌ c s) =
    last_part_from (if eqb (code c) b'-' then "" else push cur c) (eqb (code c) b'-' || seen) s

-- The last part of strings.Split(name, "-") if there is more than one, else "".
unfoldable pub last_part : String → String
unfolding last_part_from
last_part name = last_part_from "" false name
