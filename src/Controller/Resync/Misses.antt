-- ===== src/Controller/Resync/Misses.antt =====
-- What the periodic comparison finds in the caches: its keys lose the last seven characters first.
use text.Mathlib.TextLemmas.{nil-append, cons-append, append_assoc}
use polaris_controller.Common.{
  ℕ, zero, suc, ◌+◌, ◌-◌, ◌≤◌, String, ◌≡◌, refl, ap, false, ◌==◌, ltb, none, some, [], ◌∷◌, All,
  arith, Bool-cases, eq_iff, inl, inr,
}
use polaris_controller.Common.Dict.{Dict, lookup}
use polaris_controller.Common.Outcome.{ok}
use polaris_controller.Kube.{Service}
use polaris_controller.Util.Text.{◌⋯◌, itoa}
use polaris_controller.Controller.Tasks.{kubernetes_service, task_key}
use polaris_controller.Controller.Tasks.Keys.{bars}
use polaris_controller.Controller.State.{Env, Controller, insert_task}
use polaris_controller.Controller.Resync.{
  text_length, text_take, get_origin_key_with_resync_queue_key, resync_task, resync_service,
  resync_service_by, resync_service_cached,
}

pub bars-append : (a b : String) → bars (a ⋯ b) ≡ bars a + bars b
unfolding bars
bars-append String.[] b = rw (nil-append b) (omega arith)
bars-append (String.◌∷◌ c a) b = rw (cons-append c a b) (ground (arith, bars-append a b))

text_length-append : (a b : String) → text_length (a ⋯ b) ≡ text_length a + text_length b
unfolding text_length
text_length-append String.[] b = rw (nil-append b) (omega arith)
text_length-append (String.◌∷◌ c a) b =
    rw (cons-append c a b) (omega (arith, text_length-append a b))

text_take-append : (n : ℕ) (a b : String) → n ≤ text_length a → text_take n (a ⋯ b) ≡ text_take n a
unfolding text_take text_length
text_take-append zero a b h = refl
text_take-append (suc n) String.[] b h = ground arith
text_take-append (suc n) (String.◌∷◌ c a) b h =
    rw (cons-append c a b, text_take-append n a b (omega arith)) refl

bars-text_take : (n : ℕ) (s : String) → bars (text_take n s) ≤ bars s
unfolding text_take bars
bars-text_take zero s = omega arith
bars-text_take (suc n) String.[] = omega arith
bars-text_take (suc n) (String.◌∷◌ c s) = ground (arith, bars-text_take n s)

lookup-other :
    (k : String) (m : Dict Service) → bars k ≤ 1 → All (λ kv. bars kv.0 ≡ 2) m → lookup k m ≡ none
unfolding lookup
lookup-other k [] h a = refl
lookup-other k ((j, v) ∷ m) h (two, a) = elim (Bool-cases (j == k)) [
  | inl same ↦ let e : j ≡ k = (eq_iff j k).0 same in ground (arith, ap bars e)
  | inr other ↦ rw other (lookup-other k m h a)
]

-- A key of a service, cut after the name at the latest.
origin_of :
    (s : String)
    → text_take (text_length (s ⋯ "|2") - 7) (s ⋯ "|2") ≡ text_take (text_length s - 5) s
unfolding text_length
origin_of s =
    rw (text_length-append s "|2", text_take-append (text_length s + 2 - 7) s "|2" (omega arith))
      (ap (λ n. text_take n s) (omega arith))

service_key :
    (namespace name : String)
    → task_key namespace name kubernetes_service ≡ (namespace ⋯ "|" ⋯ name) ⋯ "|2"
unfolding task_key itoa
service_key namespace name =
    rw (append_assoc namespace ("|" ⋯ name) "|2", append_assoc "|" name "|2") refl

origin_bars :
    (namespace name : String)
    → bars namespace ≡ 0
    → bars name ≡ 0
    → let key = task_key namespace name kubernetes_service in
      bars (text_take (text_length key - 7) key) ≤ 1
unfolding bars
origin_bars namespace name h1 h2 =
    let s = namespace ⋯ "|" ⋯ name in
    rw (service_key namespace name, origin_of s)
      (omega (
        arith,
        h1,
        h2,
        bars-text_take (text_length s - 5) s,
        bars-append namespace ("|" ⋯ name),
        bars-append "|" name,
      ))

origin_is :
    (key : String)
    → 7 ≤ text_length key
    → get_origin_key_with_resync_queue_key key ≡ some (text_take (text_length key - 7) key)
unfolding get_origin_key_with_resync_queue_key
origin_is key long = let enough : ltb (text_length key) 7 ≡ false = ground arith in rw enough refl

-- The periodic comparison of a service of whose name and namespace no character is a bar, and
-- whose key is not shorter than seven characters, never finds it in the cache of services, all of
-- whose keys hold two bars as those of tasks do: it always queues a full synchronisation.
pub resync_service-queues :
    (env : Env) (namespace name : String) (value : Service) (p : Controller)
    → bars namespace ≡ 0
    → bars name ≡ 0
    → 7 ≤ text_length (task_key namespace name kubernetes_service)
    → All (λ kv. bars kv.0 ≡ 2) p.service_cache
    → resync_service env (task_key namespace name kubernetes_service) value p
      ≡ (ok tt, insert_task (resync_task value.namespace value.name) p)
unfolding resync_service resync_service_by resync_service_cached
resync_service-queues env namespace name value p h1 h2 long two =
    let key = task_key namespace name kubernetes_service in
    rw
      (
        origin_is key long,
        lookup-other (text_take (text_length key - 7) key) p.service_cache
            (origin_bars namespace name h1 h2) two,
      )
      refl
