-- ===== src/Controller/Instances/Convergence.antt =====
-- CompareInstance of pkg/controller/apis.go: what the requests that it leads to make of the
-- registered instances.
use polaris_controller.Common.{
  String, ◌≡◌, refl, Bool, true, false, not, ◌&&◌, ◌||◌, ◌==◌, Option, none, some, List, [], ◌∷◌,
  arith, any, eq_iff, Bool-cases, inl, inr,
}
use polaris_controller.Common.Dict.{Dict, lookup, insert, delete, lookup-insert, lookup-delete}
use polaris_controller.Common.Int.{ℤ}
use polaris_controller.Kube.{Service, Endpoints}
use polaris_controller.Address.{
  Address, InstanceSet, SdkInstance, PodLister, get_address_map_from_endpoints,
  get_address_map_from_polaris_instance,
}
use polaris_controller.Address.Keyed.{key_of, WellKeyed, endpoints-WellKeyed, instances-WellKeyed}
use polaris_controller.Controller.State.{Env}
use polaris_controller.Controller.Instances.{keep_missing, added_of, compare_instance}

abbrev pub is_some : Option Address → Bool
is_some none = false
is_some (some a) = true

-- The server's side: instances removed and put one after the other.
unfoldable pub remove_all : List Address → InstanceSet → InstanceSet
remove_all [] m = m
remove_all (a ∷ rest) m = remove_all rest (delete (key_of a) m)

unfoldable pub put_all : List Address → InstanceSet → InstanceSet
put_all [] m = m
put_all (a ∷ rest) m = put_all rest (insert (key_of a) a m)

lookup-remove_all :
    (k : String) (gone : List Address) (m : InstanceSet)
    → is_some (lookup k (remove_all gone m))
      ≡ (not (any (λ a. key_of a == k) gone) && is_some (lookup k m))
unfolding remove_all
lookup-remove_all k [] m = refl
lookup-remove_all k (a ∷ rest) m =
    rw (lookup-remove_all k rest (delete (key_of a) m), lookup-delete (key_of a) k m) (ground arith)

lookup-put_all :
    (k : String) (gone : List Address) (m : InstanceSet)
    → is_some (lookup k (put_all gone m)) ≡ (any (λ a. key_of a == k) gone || is_some (lookup k m))
unfolding put_all
lookup-put_all k [] m = refl
lookup-put_all k (a ∷ rest) m =
    rw (lookup-put_all k rest (insert (key_of a) a m), lookup-insert (key_of a) k a m)
      (ground arith)

module _ (env : Env) where
  any-keep_missing :
      (p : Address → Bool) (o : Option Address) (a : Address) (rest : List Address)
      → any p (keep_missing env o a rest) ≡ (not (is_some o) && p a || any p rest)
  unfolding keep_missing
  any-keep_missing p none a rest = refl
  any-keep_missing p (some c) a rest = refl

  any-added_of :
      (k : String) (cur spec : InstanceSet)
      → WellKeyed spec
      → any (λ a. key_of a == k) (added_of env cur spec)
        ≡ (is_some (lookup k spec) && not (is_some (lookup k cur)))
  unfolding added_of lookup
  any-added_of k cur [] w = refl
  any-added_of k cur ((j, a) ∷ spec) (same, w) =
      rw (any-keep_missing (λ b. key_of b == k) (lookup j cur) a (added_of env cur spec)) (
        rw (← same, any-added_of k cur spec w)
          (elim (Bool-cases (j == k)) [
            | inl here ↦ let e : j ≡ k = (eq_iff j k).0 here in rw (here, e) (ground arith)
            | inr other ↦ rw other (ground arith)
          ]))

compare_instance-converges :
    (env : Env) (service : Service) (spec cur : InstanceSet) (k : String)
    → WellKeyed spec
    → WellKeyed cur
    → is_some (
        lookup k (
          put_all
            (compare_instance env service spec cur).0
            (remove_all (compare_instance env service spec cur).1 cur)))
      ≡ is_some (lookup k spec)
unfolding compare_instance
compare_instance-converges env service spec cur k ws wc =
    rw
      (
        lookup-put_all k (added_of env cur spec) (remove_all (added_of env spec cur) cur),
        lookup-remove_all k (added_of env spec cur) cur,
        any-added_of env k cur spec ws,
        any-added_of env k spec cur wc,
      )
      (ground arith)

-- When the endpoints of a service give the expected instances `spec`, and `cur` holds those of the
-- registered instances that this cluster registered, the deletions and the additions that
-- CompareInstance finds leave exactly the keys of `spec` among those registered instances.
pub endpoints-converge :
    (env : Env) (service : Service) (endpoint : Endpoints) (pods : PodLister) (weights : Dict ℤ)
    (instances : List SdkInstance) (cluster : String) (spec : InstanceSet) (k : String)
    → get_address_map_from_endpoints service endpoint pods weights ≡ some spec
    → let cur = get_address_map_from_polaris_instance instances cluster in
      let (adds, deletes, updates) = compare_instance env service spec cur in
      is_some (lookup k (put_all adds (remove_all deletes cur))) ≡ is_some (lookup k spec)
endpoints-converge env service endpoint pods weights instances cluster spec k e =
    compare_instance-converges env service spec _ k
      (endpoints-WellKeyed service endpoint pods weights spec e)
      (instances-WellKeyed instances cluster)
