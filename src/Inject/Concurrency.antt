-- ===== src/Inject/Concurrency.antt =====
-- pkg/inject/pkg/kube/inject/concurrency.go: the number of threads of the proxy. The regular expression
-- of the flag is written out as a function.
use Prim.Native.Char.{code}
use polaris_controller.Common.{
  ℕ, ◌+◌, ◌/◌, String, Bool, true, false, ◌==◌, ◌&&◌, not, eqb, leb, ltb, if◌then◌else◌, Option,
  none, some, List, [], ◌∷◌, ◌++◌,
}
use polaris_controller.Common.Int.{ℤ, pos, negsuc}
use polaris_controller.Util.Text.{itoa, atoi}
use polaris_controller.Util.Split.{trim_space}
use polaris_controller.Inject.Objects.{Container}
use polaris_controller.Inject.Patch.{proxy_container_name}

-- The text after a prefix, if it is there.
unfoldable pub after_prefix : String → String → Option String
after_prefix String.[] s = some s
after_prefix (String.◌∷◌ c p) String.[] = none
after_prefix (String.◌∷◌ c p) (String.◌∷◌ d s) =
    let rest = after_prefix p s in if eqb (code c) (code d) then rest else none

unfoldable pub all_digits : String → Bool
all_digits String.[] = true
all_digits (String.◌∷◌ c s) = leb b'0' (code c) && leb (code c) b'9' && all_digits s

threads : Option String → Option String
threads none = none
threads (some digits) = if not (digits == "") && all_digits digits then some digits else none

after_name : Option String → Option String
unfolding threads
after_name none = none
after_name (some rest) = if rest == "" then some "" else threads (after_prefix "=" rest)

first_of : Option String → Option String → Option String
first_of none second = second
first_of (some s) second = some s

-- A match of concurrencyPattern: the threads, or "" without them.
unfoldable pub match_concurrency : String → Option String
unfolding first_of after_name all_digits
match_concurrency arg =
    after_name (first_of (after_prefix "--concurrency" arg) (after_prefix "-concurrency" arg))

or_no_number : Option ℤ → ℤ
or_no_number none = pos 0
or_no_number (some c) = c

next_arg : List String → ℤ
unfolding or_no_number
next_arg [] = pos 0
next_arg (arg ∷ args) = or_no_number (atoi arg)

-- The number for an argument that matches, with the arguments after it.
found_number : String → List String → ℤ
unfolding or_no_number next_arg
found_number text args = if text == "" then next_arg args else or_no_number (atoi text)

-- extractConcurrency
unfoldable pub extract_concurrency : List String → ℤ
unfolding found_number
extract_concurrency [] = pos 0
extract_concurrency (arg ∷ args) =
    let later = extract_concurrency args in
    elim (match_concurrency (trim_space arg)) [ none ↦ later | some text ↦ found_number text args ]

-- math.Ceil of the thousandths of a CPU over 1000
abbrev pub cores : ℕ → ℕ
cores cpumillis = (cpumillis + 999) / 1000

-- updateConcurrency, with whether it changed the container
unfoldable pub update_concurrency : Container → ℕ → Bool × Container
update_concurrency container cpumillis =
    if ltb 0 (cores cpumillis)
    then (
      true,
      record container { args = container.args ++ "--concurrency" ∷ itoa (cores cpumillis) ∷ [] },
    )
    else (false, container)

is_positive : ℤ → Bool
is_positive (pos n) = ltb 0 n
is_positive (negsuc n) = false

limit_or_request : Bool × Container → ℕ → Container
limit_or_request (true, container) request = container
limit_or_request (false, container) request = (update_concurrency container request).1

-- The proxy's container gets the flag, from its limit or else from its request, unless it has it.
unfoldable pub with_concurrency : Container → Container
unfolding is_positive limit_or_request
with_concurrency c =
    if is_positive (extract_concurrency c.args)
    then c
    else limit_or_request (update_concurrency c c.cpu_limit) c.cpu_request

-- applyConcurrency: the first container of the proxy's name
unfoldable pub apply_concurrency : List Container → List Container
apply_concurrency [] = []
apply_concurrency (c ∷ containers) =
    let later = apply_concurrency containers in
    if c.name == proxy_container_name then with_concurrency c ∷ containers else c ∷ later
