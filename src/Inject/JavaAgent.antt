-- ===== src/Inject/JavaAgent.antt =====
-- pkg/inject/pkg/kube/inject/apply/javaagent/patch.go: the containers of a pod in the mode java-agent.
pub mod Init
pub mod Updated
pub mod Builder
use polaris_controller.Common.{
  ℕ, suc, String, Bool, true, not, ◌==◌, any, if◌then◌else◌, Option, none, some, List, [], ◌∷◌,
  ◌++◌,
}
use polaris_controller.Common.Dict.{Dict, lookup, insert, index, merge}
use polaris_controller.Common.Outcome.{ok, panic, Exec, gets, ◌>>=◌}
use polaris_controller.Util.Text.{◌⋯◌}
use polaris_controller.Inject.Objects.{Container, EnvVar, VolumeMount}
use polaris_controller.Inject.Options.{PatchOptions}
use polaris_controller.Inject.Patch.{Operation, replace, Target, item}
use polaris_controller.Inject.Annotations.{sort_keys, keys_of}

abbrev pub annotation_key_workload_namespace_as_service_namespace : String
annotation_key_workload_namespace_as_service_namespace =
    "polarismesh.cn/workloadNamespaceAsServiceNamespace"

abbrev pub annotation_key_workload_name_as_service_name : String
annotation_key_workload_name_as_service_name = "polarismesh.cn/workloadNameAsServiceName"

abbrev pub annotation_key_java_agent_version : String
annotation_key_java_agent_version = "polarismesh.cn/javaagentVersion"

abbrev pub annotation_key_java_agent_plugin_config : String
annotation_key_java_agent_plugin_config = "polarismesh.cn/javaagentConfig"

abbrev pub service_name_value_from_key : String
service_name_value_from_key = "spring.application.name"

abbrev pub service_namespace_value_from_key : String
service_namespace_value_from_key = "spring.cloud.polaris.discovery.namespace"

abbrev pub java_tool_options : String
java_tool_options = "JAVA_TOOL_OPTIONS"

abbrev pub active_java_agent_cmd : String
active_java_agent_cmd =
    "-javaagent:/app/lib/.polaris/java_agent/polaris-java-agent/polaris-agent-core-bootstrap.jar"

-- fmt.Sprintf(OldActiveJavaAgentCmd, version)
unfoldable pub old_active_java_agent_cmd : String → String
old_active_java_agent_cmd version =
    "-javaagent:/app/lib/.polaris/java_agent/polaris-java-agent-" ⋯ version
    ⋯ "/polaris-agent-core-bootstrap.jar"

abbrev pub old_agent_versions : List String
old_agent_versions =
    "1.7.0-RC5" ∷ "1.7.0-RC4" ∷ "1.7.0-RC3" ∷ "1.7.0-RC2" ∷ "1.7.0-RC1" ∷ "1.6.1" ∷ "1.6.0" ∷ []

unfoldable pub is_old_version : String → Bool
is_old_version version = any (λ old. old == version) old_agent_versions

-- val, ok := m[key]; ok && val == "true"
unfoldable pub is_set_true : String → Dict String → Bool
is_set_true key m = index key m == "true"

-- getDefaultProperties
unfoldable pub get_default_properties : PatchOptions → Dict String
get_default_properties opt =
    let by_namespace =
      if is_set_true annotation_key_workload_namespace_as_service_namespace opt.pod.annotations
      then insert service_namespace_value_from_key opt.pod.namespace []
      else [] in
    if is_set_true annotation_key_workload_name_as_service_name opt.pod.annotations
    then insert service_name_value_from_key opt.workload_name by_namespace
    else by_namespace

-- updateJavaEnvVar: a new variable with a text for its value, whatever the source of the old one.
unfoldable pub update_java_env_var : EnvVar → String → String → EnvVar
update_java_env_var env_var cmd version = record {
  name = java_tool_options;
  value = env_var.value ⋯ " " ⋯ cmd ⋯ version;
  value_from = none;
}

abbrev pub no_variable : EnvVar
no_variable = record { name = ""; value = ""; value_from = none }

-- The first variable of the name is changed in its place, or a new one is put at the end.
unfoldable pub with_java_options : String → String → List EnvVar → List EnvVar
with_java_options cmd version [] = update_java_env_var no_variable cmd version ∷ []
with_java_options cmd version (e ∷ envs) =
    let later = with_java_options cmd version envs in
    if e.name == java_tool_options then update_java_env_var e cmd version ∷ envs else e ∷ later

-- The settings as options of the Java virtual machine, in the order of their keys.
options_of : Dict String → List String → String
options_of properties [] = ""
options_of properties (key ∷ keys) =
    " -D" ⋯ key ⋯ "=" ⋯ index key properties ⋯ options_of properties keys

unfoldable pub java_tool_options_value : Dict String → String
unfolding options_of
java_tool_options_value properties = options_of properties (sort_keys (keys_of properties))

abbrev pub java_agent_mount : VolumeMount
java_agent_mount = record {
  name = "java-agent-dir";
  mount_path = "/app/lib/.polaris/java_agent";
  sub_path = "";
}

abbrev pub with_annotation : String → String → PatchOptions → PatchOptions
with_annotation key value opt =
    let meta' = record opt.pod.meta { annotations = insert key value opt.pod.annotations } in
    record opt { pod = record opt.pod { meta = meta' } }

module _ (unmarshal : String → Dict String × Bool) where
  -- The user's settings, as far as they could be read: an error of json.Unmarshal is logged only.
  custom_properties : String → Dict String
  custom_properties properties = if properties == "" then [] else (unmarshal properties).0

  custom_over : Dict String → Option String → Dict String
  custom_over properties none = properties
  custom_over properties (some config) = merge properties (custom_properties config)

  -- The version that the annotation asks for, noted in ExternalInfo, or else "latest", noted in the
  -- annotation. Writing to the map of annotations panics where there is none.
  unfoldable pub choose_version : Exec PatchOptions String
  choose_version opt =
      let version = index annotation_key_java_agent_version opt.pod.annotations in
      if not (version == "")
      then (
        ok version,
        record opt {
          external_info = insert annotation_key_java_agent_version version opt.external_info;
        },
      )
      else if opt.pod.has_annotations
      then (ok "latest", with_annotation annotation_key_java_agent_version "latest" opt)
      else (panic, opt)

  -- The environment of a container, for a version and the settings.
  unfoldable pub update_env : String → Dict String → Dict String → List EnvVar → List EnvVar
  update_env version external properties envs =
      if is_old_version version
      then with_java_options
          (old_active_java_agent_cmd (index annotation_key_java_agent_version external)) "" envs
      else with_java_options active_java_agent_cmd (java_tool_options_value properties) envs

  unfoldable pub updated_container : String → Dict String → Dict String → Container → Container
  updated_container version external properties container = record container {
    env = update_env version external properties container.env;
    volume_mounts = container.volume_mounts ++ java_agent_mount ∷ [];
  }

  -- The loop over the containers from index `i` on, which adds the user's settings in each turn. The
  -- source also writes a variable that is there to the pod's own list, which nothing reads afterwards.
  unfoldable pub update_each :
      Option String
      → String
      → Dict String
      → Dict String
      → String
      → ℕ
      → List Container
      → List (Operation Container)
  unfolding custom_over custom_properties
  update_each config version external properties base_path i [] = []
  update_each config version external properties base_path i (c ∷ containers) =
      let properties' = custom_over properties config in
      record {
        op = replace;
        base_path = base_path;
        target = Target.index i;
        value = item (updated_container version external properties' c);
      }
      ∷ update_each config version external properties' base_path (suc i) containers

  -- updateContainer
  unfoldable pub update_container : String → Exec PatchOptions (List (Operation Container))
  update_container base_path = choose_version >>= λ version. gets (λ opt.
      update_each (lookup annotation_key_java_agent_plugin_config opt.pod.annotations) version
        opt.external_info (get_default_properties opt) base_path 0 opt.pod.containers)
