-- ===== src/Inject/Mesh/Additions.antt =====
-- Steps on a container that add variables at most (mesh/patch.go).
use mathlib.Core.List.{append-nil}
use polaris_controller.Common.{◌≡◌, ◌≢◌, refl, sym, ap, List, [], ◌++◌, arith}
use polaris_controller.Common.Outcome.{
  Outcome, ok, err, panic, Exec, caught, attempt, continue, lift, modify, ◌>>=◌, ◌>>◌,
}
use polaris_controller.Inject.Objects.{Container, EnvVar, VolumeMount}

-- The container with more variables and mounts.
abbrev pub with_more : List EnvVar → List VolumeMount → Container → Container
with_more env mounts c = record c { env = c.env ++ env; volume_mounts = c.volume_mounts ++ mounts }

pub with_more-nil :
    (env : List EnvVar) (c : Container) → record c { env = c.env ++ env } ≡ with_more env [] c
with_more-nil env c i = record c {
  env = c.env ++ env;
  volume_mounts = sym (append-nil c.volume_mounts) i;
}

pub same-with_more : (c : Container) → c ≡ with_more [] [] c
same-with_more c i = record c {
  env = sym (append-nil c.env) i;
  volume_mounts = sym (append-nil c.volume_mounts) i;
}

-- A step that ends without a panic, and adds variables at most.
unfoldable pub Appends : Exec Container (Unit {0}) → Type 0
Appends m =
    (c : Container)
    → (r : Outcome (Unit {0})) × (env : List EnvVar) × (r ≢ panic) × (m c ≡ (r, with_more env [] c))

-- Two calls, and the variables that are made of the second one's value.
pub two-Appends :
    {A : Type 0} (a : Outcome (Unit {0})) (b : Outcome A) (vars : A → List EnvVar)
    → a ≢ panic
    → b ≢ panic
    → Appends (lift a >> lift b >>= λ v. modify (λ add. record add { env = add.env ++ vars v }))
unfolding Appends
two-Appends (ok x) (ok v) vars h g c =
    (ok tt, vars v, ground arith, ap (λ d. (ok tt, d)) (with_more-nil (vars v) c))
two-Appends (ok x) (err e) vars h g c =
    (err e, [], ground arith, ap (λ d. (err e, d)) (same-with_more c))
two-Appends (ok x) panic vars h g c = absurd (g refl)
two-Appends (err e) b vars h g c =
    (err e, [], ground arith, ap (λ d. (err e, d)) (same-with_more c))
two-Appends panic b vars h g c = absurd (h refl)

-- A call whose error is only looked at goes on.
pub attempt_lem :
    (m n : Exec Container (Unit {0})) (c c' : Container) (r : Outcome (Unit {0}))
    → r ≢ panic
    → m c ≡ (r, c')
    → (attempt m >> n) c ≡ n c'
attempt_lem m n c c' (ok x) h e = ap (λ p. continue (caught p.0) (λ _. n) p.1) e
attempt_lem m n c c' (err x) h e = ap (λ p. continue (caught p.0) (λ _. n) p.1) e
attempt_lem m n c c' panic h e = absurd (h refl)
