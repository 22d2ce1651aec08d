-- ===== src/Controller/Tasks/Keys.antt =====
-- Task.Key of pkg/controller/types.go.
use Prim.Native.Char.{code}
use text.Mathlib.TextLemmas.{nil-append, cons-append, head-eq_of_cons-eq, tail-eq_of_cons-eq}
use polaris_controller.Common.{
  ℕ, suc, eqb, arith, ◌≡◌, ◌≢◌, refl, sym, ap, ◌∙◌, String, if◌then◌else◌, ◌==◌,
}
use polaris_controller.Util.Text.{◌⋯◌, itoa}
use polaris_controller.Controller.Tasks.{
  ObjectType, kubernetes_namespace, kubernetes_service, kubernetes_config_map, kubernetes_endpoints,
  object_type_value, task_key,
}

-- The number of separators in a key.
unfoldable pub bars : String → ℕ
bars String.[] = 0
bars (String.◌∷◌ c s) = if eqb (code c) b'|' then suc (bars s) else bars s

-- A name without the separator of keys.
abbrev NoBar : String → Type 0
NoBar String.[] = Unit
NoBar (String.◌∷◌ c s) = (code c ≢ b'|') × NoBar s

bars-NoBar : (s : String) → bars s ≡ 0 → NoBar s
unfolding bars
bars-NoBar String.[] h = tt
bars-NoBar (String.◌∷◌ c s) h = (ground arith, bars-NoBar s (ground arith))

bar_first : (s : String) → "" ⋯ "|" ⋯ s ≡ String.◌∷◌ "|" ("" ⋯ s)
bar_first s = nil-append ("|" ⋯ s) ∙ cons-append "|" "" s

after_bar : (s : String) → "" ⋯ s ≡ s
after_bar = nil-append

-- A text up to its first bar is determined by the whole.
split_at_bar :
    (a b s t : String) → NoBar a → NoBar b → a ⋯ "|" ⋯ s ≡ b ⋯ "|" ⋯ t → (a ≡ b) × (s ≡ t)
split_at_bar String.[] String.[] s t na nb e = (
  refl,
  sym (after_bar s) ∙ tail-eq_of_cons-eq (sym (bar_first s) ∙ e ∙ bar_first t) ∙ after_bar t,
)
split_at_bar String.[] (String.◌∷◌ d b) s t na nb e =
    elim (nb.0
      (sym (ap code (head-eq_of_cons-eq (sym (bar_first s) ∙ e ∙ cons-append d b ("|" ⋯ t)))))) [ ]
split_at_bar (String.◌∷◌ c a) String.[] s t na nb e =
    elim (na.0
      (ap code (head-eq_of_cons-eq (sym (cons-append c a ("|" ⋯ s)) ∙ e ∙ bar_first t)))) [ ]
split_at_bar (String.◌∷◌ c a) (String.◌∷◌ d b) s t na nb e =
    let e' : String.◌∷◌ c (a ⋯ "|" ⋯ s) ≡ String.◌∷◌ d (b ⋯ "|" ⋯ t) =
      sym (cons-append c a ("|" ⋯ s)) ∙ e ∙ cons-append d b ("|" ⋯ t) in
    let (same_a, same_s) = split_at_bar a b s t na.1 nb.1 (tail-eq_of_cons-eq e') in
    (rw (head-eq_of_cons-eq e', same_a) refl, same_s)

-- The type whose number a text is.
read_type : String → ObjectType
read_type s =
    if s == "1"
    then kubernetes_namespace
    else if s == "2"
    then kubernetes_service
    else if s == "3"
    then kubernetes_config_map
    else kubernetes_endpoints

read_type-itoa : (o : ObjectType) → read_type (itoa (object_type_value o)) ≡ o
unfolding read_type itoa
read_type-itoa kubernetes_namespace = refl
read_type-itoa kubernetes_service = refl
read_type-itoa kubernetes_config_map = refl
read_type-itoa kubernetes_endpoints = refl

itoa-object_type :
    (o o' : ObjectType) → itoa (object_type_value o) ≡ itoa (object_type_value o') → o ≡ o'
itoa-object_type o o' e = sym (read_type-itoa o) ∙ ap read_type e ∙ read_type-itoa o'

-- Tasks on objects of different namespaces, names or types have different keys, if no name holds a
-- bar.
pub task_key-injective :
    (ns ns' name name' : String) (o o' : ObjectType)
    → bars ns ≡ 0
    → bars ns' ≡ 0
    → bars name ≡ 0
    → bars name' ≡ 0
    → task_key ns name o ≡ task_key ns' name' o'
    → (ns ≡ ns') × (name ≡ name') × (o ≡ o')
unfolding task_key
task_key-injective ns ns' name name' o o' h1 h2 h3 h4 e =
    let (same_ns, rest) = split_at_bar ns ns' _ _ (bars-NoBar ns h1) (bars-NoBar ns' h2) e in
    let (same_name, digits) =
      split_at_bar name name' _ _ (bars-NoBar name h3) (bars-NoBar name' h4) rest in
    (same_ns, same_name, itoa-object_type o o' digits)
