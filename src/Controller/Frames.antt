-- ===== src/Controller/Frames.antt =====
-- Parts of a handler that leave the cache of services, and the services that the periodic comparison
-- visits, as they are.
use polaris_controller.Common.{◌≡◌, refl, ◌∙◌, Bool, true, false}
use polaris_controller.Common.Dict.{Dict}
use polaris_controller.Kube.{Service}
use polaris_controller.Common.Outcome.{
  Outcome, ok, err, panic, ◌>>=◌, ◌>>◌, continue, attempt, when, pure,
}
use polaris_controller.Api.Http.{Io}
use polaris_controller.Controller.State.{Controller, M, api}

abbrev pub kept : Controller → Dict Service × Dict Service
kept p = (p.service_cache, p.resync_service_cache)

-- Whatever it does, `m` leaves both maps of services as they are.
abbrev pub Keeps : {A : Type 0} → M A → Type 0
Keeps m = (p : Controller) → kept (m p).1 ≡ kept p

Keeps-continue :
    {A B : Type 0} (r : Outcome A) (f : A → M B) (q : Controller)
    → ((a : A) → Keeps (f a))
    → kept (continue r f q).1 ≡ kept q
Keeps-continue (ok a) f q k = k a q
Keeps-continue (err e) f q k = refl
Keeps-continue panic f q k = refl

pub Keeps-bind :
    {A B : Type 0} (m : M A) (f : A → M B) → Keeps m → ((a : A) → Keeps (f a)) → Keeps (m >>= f)
Keeps-bind m f km kf p = Keeps-continue (m p).0 f (m p).1 kf ∙ km p

pub Keeps-then : {A B : Type 0} (m : M A) (n : M B) → Keeps m → Keeps n → Keeps (m >> n)
Keeps-then m n km kn = Keeps-bind m (λ _. n) km (λ _. kn)

pub Keeps-when : (b : Bool) (m : M (Unit {0})) → Keeps m → Keeps (when b m)
Keeps-when true m k p = k p
Keeps-when false m k p = refl

pub Keeps-api : {A : Type 0} (m : Io A) → Keeps (api m)
Keeps-api m p = refl

pub Keeps-attempt : (m : M (Unit {0})) → Keeps m → Keeps (attempt m)
Keeps-attempt m k p = k p

-- Errors that are logged only.
pub Keeps-attempted : (m : M (Unit {0})) → Keeps m → Keeps (attempt m >> pure tt)
Keeps-attempted m k = Keeps-then (attempt m) (pure tt) (Keeps-attempt m k) (λ p. refl)
