-- ===== src/Inject/Mode.antt =====
-- Which sidecar a pod gets (pkg/inject/pkg/kube/inject/common.go).
use polaris_controller.Common.{
  String, ◌≡◌, ◌≢◌, eq_iff, true, Option, none, some, arith, Bool-cases, inl, inr,
}
use polaris_controller.Common.Dict.{Dict, lookup, index, or_empty}
use polaris_controller.Kube.{NamespaceObject}
use polaris_controller.Util.Names.{SidecarMode, sidecar_for_unknown, parse_sidecar_mode}
use polaris_controller.Inject.{
  get_inject_mode, get_namespace_inject_mode, mode_of, is_on, inject_java_agent,
  sidecar_envoy_inject_key, polaris_sidecar_mode_label,
}

parse_sidecar_mode-known : (val : String) → parse_sidecar_mode val ≢ sidecar_for_unknown
unfolding parse_sidecar_mode
parse_sidecar_mode-known val = ground arith

mode_of-known :
    (o : Option String) (d : SidecarMode)
    → d ≢ sidecar_for_unknown
    → mode_of o d ≢ sidecar_for_unknown
unfolding mode_of
mode_of-known none d h = h
mode_of-known (some val) d h = parse_sidecar_mode-known val

namespace-known :
    (ns : Option NamespaceObject) (d : SidecarMode)
    → d ≢ sidecar_for_unknown
    → get_namespace_inject_mode ns d ≢ sidecar_for_unknown
unfolding get_namespace_inject_mode
namespace-known none d h = h
namespace-known (some ns) d h = mode_of-known (lookup polaris_sidecar_mode_label ns.labels) d h

is_on-true : (o : Option String) → is_on o ≡ true → or_empty o ≡ "true"
unfolding is_on
is_on-true none h = cc
is_on-true (some val) h = (eq_iff val "true").0 h

-- The value that reaches the configuration of the mesh.
abbrev pub IsWritten : Option String → Type 0
IsWritten none = Unit
IsWritten (some value) = value ≡ "true"

-- If the webhook's default mode is known, so is the mode of every pod, whatever its annotations and
-- the labels of its namespace; and setMeshEnvoyConfig is called with no other value than "true".
pub get_inject_mode-known :
    (annotations : Dict String) (ns : Option NamespaceObject) (default_mode : SidecarMode)
    → default_mode ≢ sidecar_for_unknown
    → ((get_inject_mode annotations ns default_mode).0 ≢ sidecar_for_unknown)
      × IsWritten (get_inject_mode annotations ns default_mode).1
unfolding get_inject_mode index
get_inject_mode-known annotations ns default_mode known =
    elim (Bool-cases (is_on (lookup inject_java_agent annotations))) [
      | inl java ↦ rw java (ground arith, tt)
      | inr no_java ↦ elim (Bool-cases (is_on (lookup sidecar_envoy_inject_key annotations))) [
        | inl mesh ↦
            rw (no_java, mesh)
              (ground arith, is_on-true (lookup sidecar_envoy_inject_key annotations) mesh)
        | inr no_mesh ↦
            rw (no_java, no_mesh) (mode_of-known _ _ (namespace-known ns default_mode known), tt)
      ]
    ]
