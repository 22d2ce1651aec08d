-- ===== src/Util/Filter.antt =====
-- pkg/util/helper.go and pkg/util/controller_utils.go: which objects are left alone, which
-- annotation of a service changed, its weight and its name in Polaris.
use polaris_controller.Common.{
  String, Bool, true, false, not, ◌||◌, ◌==◌, if◌then◌else◌, Option, none, some, List, [], ◌∷◌, any,
  ltb, length,
}
use polaris_controller.Common.Dict.{Dict, lookup, index}
use polaris_controller.Common.Int.{ℤ, pos}
use polaris_controller.Kube.{ObjectMeta, Service}
use polaris_controller.Util.Names
use polaris_controller.Util.Names.{
  is_enable_sync, ServiceChangeType, instance_ttl_changed, instance_custom_weight_changed,
  instance_metadata_changed, instance_weight_changed, instance_enable_register_changed, unchanged,
}

abbrev pub ignored_namespaces : List String
ignored_namespaces =
    "kube-system" ∷ "kube-public" ∷ "istio-system" ∷ "polaris-system" ∷ "kube-node-lease" ∷ []

unfoldable pub compare_service_annotations_change : Dict String → Dict String → ServiceChangeType
unfolding index
compare_service_annotations_change old new =
    let differ = λ (k : String). not (index k old == index k new) in
    if differ Names.Annotation.heart_beat_ttl
    then instance_ttl_changed
    else if differ Names.Annotation.custom_weight
    then instance_custom_weight_changed
    else if differ Names.Annotation.metadata
    then instance_metadata_changed
    else if differ Names.Annotation.weight
    then instance_weight_changed
    else if differ Names.Annotation.enable_register
    then instance_enable_register_changed
    else unchanged

unfoldable pub if_need_create_service_alias : Service → Service → Bool
if_need_create_service_alias old new =
    if not (
        index Names.Annotation.alias_namespace old.annotations
        == index Names.Annotation.alias_namespace new.annotations)
      || not (
          index Names.Annotation.alias_service old.annotations
          == index Names.Annotation.alias_service new.annotations)
    then if index Names.Annotation.alias_namespace new.annotations == ""
        || index Names.Annotation.alias_service new.annotations == ""
      then false
      else true
    else false

abbrev pub default_weight : ℤ
default_weight = pos 100

-- `atoi` stands for strconv.Atoi, `none` for its error.
weight_of : (String → Option ℤ) → Option String → ℤ
weight_of atoi none = default_weight
weight_of atoi (some weight) = elim (atoi weight) [ none ↦ default_weight | some w ↦ w ]

unfoldable pub get_weight_from_service : (String → Option ℤ) → Service → ℤ
unfolding weight_of
get_weight_from_service atoi svc = weight_of atoi (lookup Names.Annotation.weight svc.annotations)

unfoldable pub enable_sync : ObjectMeta → Bool
enable_sync obj = elim (lookup Names.Annotation.sync obj.annotations) [
  | none ↦ false
  | some sync ↦ sync == is_enable_sync
]

unfoldable pub ignore_object : ObjectMeta → Bool
ignore_object obj = any (λ ns. obj.namespace == ns || obj.name == ns) ignored_namespaces

is_none {ℓ} : {A : Type ℓ} → Option A → Bool
is_none none = true
is_none (some a) = false

unfoldable pub ignore_service : Service → Bool
unfolding is_none
ignore_service svc = ignore_object svc.meta || ltb (length svc.ports) 1 || is_none svc.selector

non_empty_or : Option String → String → String
non_empty_or none d = d
non_empty_or (some v) d = if v == "" then d else v

-- GetNamespace: the namespace of a service in Polaris
unfoldable pub get_namespace : Service → String
unfolding non_empty_or
get_namespace svr =
    non_empty_or (lookup Names.Annotation.overide_namespace svr.annotations) svr.namespace

-- GetServiceName
unfoldable pub get_service_name : Service → String
unfolding non_empty_or
get_service_name svr =
    non_empty_or (lookup Names.Annotation.overide_service svr.annotations) svr.name
