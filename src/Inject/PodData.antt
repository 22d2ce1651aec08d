-- ===== src/Inject/PodData.antt =====
-- pkg/inject/pkg/kube/inject/pod.go: what is found out about a pod before it is patched.
use polaris_controller.Common.{String, ◌==◌, if◌then◌else◌, Option, none, some}
use polaris_controller.Common.Dict.{Dict}
use polaris_controller.Common.Outcome.{bad_body, Outcome, ok, err}
use polaris_controller.Kube.{NamespaceObject}
use polaris_controller.Util.Names.{SidecarMode, sidecar_for_dns, sidecar_for_java_agent}
use polaris_controller.Inject.{TemplateConfig, get_inject_mode}
use polaris_controller.Inject.Objects.{Pod}

-- podDataInfo, with the fields that later steps read
pub record PodDataInfo : Type 0 where
  pub pod_object : Pod
  pub inject_mode : SidecarMode
  pub inject_template_config : TemplateConfig
  pub inject_template_version : String
  pub template_annotations : Dict String

-- A template of config.SafeTemplateConfig, with its version and the annotations that it adds.
pub record Template : Type 0 where
  pub config : TemplateConfig
  pub version : String
  pub injected_annotations : Dict String

pub record Templates : Type 0 where
  pub mesh : Template
  pub dns : Template
  pub java_agent : Template

-- assignInjectTemplateAndVersion: the mesh's is the default.
template_of : Templates → SidecarMode → Template
template_of templates sidecar_for_java_agent = templates.java_agent
template_of templates sidecar_for_dns = templates.dns
template_of templates _ = templates.mesh

in_namespace : String → Pod → Pod
in_namespace namespace pod =
    if pod.namespace == ""
    then record pod { meta = record pod.meta { namespace = namespace } }
    else pod

assign_all : Templates → Option NamespaceObject → SidecarMode → Pod → PodDataInfo
unfolding template_of
assign_all templates ns default_mode pod =
    let mode = (get_inject_mode pod.annotations ns default_mode).0 in
    let template = template_of templates mode in
    record {
      pod_object = pod;
      inject_mode = mode;
      inject_template_config = template.config;
      inject_template_version = template.version;
      template_annotations = template.injected_annotations;
    }

-- assignPodDataInfo: the pod as it is decoded, in the namespace of the request if it names none; the
-- pod's namespace is looked up for its mode.
unfoldable pub assign_pod_data_info :
    Templates
    → (String → Option NamespaceObject)
    → SidecarMode
    → Option Pod
    → String
    → Outcome PodDataInfo
unfolding in_namespace assign_all
assign_pod_data_info templates namespaces default_mode none namespace = err bad_body
assign_pod_data_info templates namespaces default_mode (some decoded) namespace =
    let pod = in_namespace namespace decoded in
    ok (assign_all templates (namespaces pod.namespace) default_mode pod)
