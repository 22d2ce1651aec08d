-- ===== src/Common/Outcome.antt =====
-- What a Go call does: it returns a value, returns an error, or panics; and code that does so over
-- a state, with the state as it was left also beside an error or a panic.
use Prim.Native.Nat.{ℕ}
use Prim.Native.String.{String}
use mathlib.Core.Bool.{Bool, true, false}
use mathlib.Core.Option.{Option, none, some}
use mathlib.Core.List.{List}

-- PError (pkg/polarisapi/error.go): the code and the address of an instance that a batch request
-- was refused for; the text of the message is left out.
pub record PError : Type 0 where
  pub ip : String
  pub port : ℕ
  pub code : ℕ

-- `remote` is an error of a call that leaves the program; the others are made by the program.
pub data Error : Type 0 where
  remote : ℕ → Error
  bad_body : Error
  refused : ℕ → Error
  batch : List PError → Error
  empty_namespace empty_service_name not_found_service failed_delete_and_update : Error
  no_patch_builder invalid_annotations : Error
  unknown_logger unknown_level bad_path : String → Error

pub data Outcome {ℓ} (A : Type ℓ) : Type ℓ where
  ok : A → Outcome A
  err : Error → Outcome A
  panic : Outcome A

-- The error result of a call whose only result is an error.
abbrev pub of_error : Option Error → Outcome (Unit {0})
of_error none = ok tt
of_error (some e) = err e

abbrev pub Exec {ℓ} : Type ℓ → Type ℓ → Type ℓ
Exec S A = S → Outcome A × S

abbrev pub pure {ℓ} : {S A : Type ℓ} → A → Exec S A
pure a s = (ok a, s)

abbrev pub raise {ℓ} : {S A : Type ℓ} → Error → Exec S A
raise e s = (err e, s)

abbrev pub crash {ℓ} : {S A : Type ℓ} → Exec S A
crash s = (panic, s)

abbrev pub lift {ℓ} : {S A : Type ℓ} → Outcome A → Exec S A
lift r s = (r, s)

abbrev pub modify : {S : Type 0} → (S → S) → Exec S (Unit {0})
modify f s = (ok tt, f s)

abbrev pub gets {ℓ} : {S A : Type ℓ} → (S → A) → Exec S A
gets f s = (ok (f s), s)

abbrev pub continue {ℓ} : {S A B : Type ℓ} → Outcome A → (A → Exec S B) → Exec S B
continue (ok a) f s = f a s
continue (err e) f s = (err e, s)
continue panic f s = (panic, s)

infixl 10 ◌>>=◌ ◌>>◌
abbrev pub ◌>>=◌ {ℓ} : {S A B : Type ℓ} → Exec S A → (A → Exec S B) → Exec S B
◌>>=◌ first next start = continue (first start).0 next (first start).1

abbrev pub ◌>>◌ {ℓ} : {S A B : Type ℓ} → Exec S A → Exec S B → Exec S B
m >> n = m >>= λ _. n

abbrev pub caught : Outcome (Unit {0}) → Outcome (Option Error)
caught (ok _) = ok none
caught (err e) = ok (some e)
caught panic = panic

abbrev pub and_then : {A B : Type 0} → Outcome A → (A → Outcome B) → Outcome B
and_then (ok a) k = k a
and_then (err e) k = err e
and_then panic k = panic

-- A loop that makes an element of a new list in each round.
unfoldable pub traverse : {A B : Type 0} → (A → Outcome B) → List A → Outcome (List B)
traverse f List.[] = ok List.[]
traverse f (List.◌∷◌ x xs) =
    let rest = traverse f xs in and_then (f x) (λ y. and_then rest (λ ys. ok (List.◌∷◌ y ys)))

-- `err := f()`: the error as a value.
abbrev pub attempt : {S : Type 0} → Exec S (Unit {0}) → Exec S (Option Error)
attempt m s = let (r, s') = m s in (caught r, s')

-- for _, x := range xs { f(x) } with an early return on an error
unfoldable pub for_each : {S A : Type 0} → List A → (A → Exec S (Unit {0})) → Exec S (Unit {0})
for_each List.[] f = pure tt
for_each (List.◌∷◌ x xs) f = f x >> for_each xs f

-- if test { m }
abbrev pub when : {S : Type 0} → Bool → Exec S (Unit {0}) → Exec S (Unit {0})
when true m = m
when false m = pure tt
