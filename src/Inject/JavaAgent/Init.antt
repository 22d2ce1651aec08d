-- ===== src/Inject/JavaAgent/Init.antt =====
-- pkg/inject/pkg/kube/inject/apply/javaagent/patch.go: handleJavaAgentInit, which completes the init
-- container that brings the agent, and the request to add containers. The client of Kubernetes, the
-- templates of Go and encoding/json are parameters.
pub mod Parts
pub mod Image
use polaris_controller.Common.{
  String, Bool, true, false, not, ◌==◌, ◌&&◌, if◌then◌else◌, Option, none, some, List, [], ◌∷◌,
  ◌++◌,
}
use polaris_controller.Common.Dict.{Dict, lookup, insert, index, merge}
use polaris_controller.Common.Outcome.{
  bad_body, Outcome, ok, err, panic, Exec, pure, lift, modify, gets, ◌>>=◌, ◌>>◌, when,
}
use polaris_controller.Util.Text.{◌⋯◌}
use polaris_controller.Util.Split.{split, part, trim_space, lines, is_comment}
use polaris_controller.Inject.Objects.{Container, EnvVar}
use polaris_controller.Inject.Options.{PatchOptions}
use polaris_controller.Inject.JavaAgent.{
  is_old_version, is_set_true, annotation_key_java_agent_version,
  annotation_key_java_agent_plugin_config, annotation_key_workload_namespace_as_service_namespace,
}

abbrev pub java_agent_init_container : String
java_agent_init_container = "polaris-javaagent-init"

abbrev pub annotation_key_java_agent_plugin_framework : String
annotation_key_java_agent_plugin_framework = "polarismesh.cn/javaagentFrameworkName"

abbrev pub annotation_key_java_agent_plugin_framework_version : String
annotation_key_java_agent_plugin_framework_version = "polarismesh.cn/javaagentFrameworkVersion"

abbrev pub sidecar_service_name : String
sidecar_service_name = "sidecar.polarismesh.cn/serviceName"

-- The container under work, and PatchOptions.ExternalInfo.
pub record InitState : Type 0 where
  pub add : Container
  pub external_info : Dict String

abbrev pub variable : String → String → EnvVar
variable name value = record { name = name; value = value; value_from = none }

abbrev pub append_env : List EnvVar → Exec InitState (Unit {0})
append_env envs = modify (λ s. record s { add = record s.add { env = s.add.env ++ envs } })

abbrev pub set_version : String → InitState → InitState
set_version version s = record s {
  external_info = insert annotation_key_java_agent_version version s.external_info;
}

-- if len(oldImageInfo) > 1
abbrev pub note_tag : List String → InitState → InitState
note_tag (name ∷ tag ∷ more) s = set_version tag s
note_tag _ s = s

-- The image's version: its tag, or what the annotation asks for.
unfoldable pub choose_image : PatchOptions → Exec InitState (Unit {0})
choose_image opt = gets (λ s. split b':' s.add.image) >>= λ old_image_info.
    modify (note_tag old_image_info)
    >> (let version = index annotation_key_java_agent_version opt.pod.annotations in
        when (not (version == "")) (
          lift (part 0 old_image_info) >>= λ name. modify (λ s.
            set_version version
              (record s { add = record s.add { image = name ⋯ ":" ⋯ version } }))))

-- The framework's name and its version, when both are there.
unfoldable pub framework_env : PatchOptions → List EnvVar
framework_env opt =
    let name = index annotation_key_java_agent_plugin_framework opt.pod.annotations in
    let version = index annotation_key_java_agent_plugin_framework_version opt.pod.annotations in
    if not (name == "") && not (version == "")
    then variable "JAVA_AGENT_PLUGIN_TYPE" (name ⋯ version)
      ∷ variable "JAVA_AGENT_FRAMEWORK_NAME" name
      ∷ variable "JAVA_AGENT_FRAMEWORK_VERSION" version
      ∷ []
    else []

unfoldable pub plugin_type : PatchOptions → String
plugin_type opt =
    index annotation_key_java_agent_plugin_framework opt.pod.annotations
    ⋯ index annotation_key_java_agent_plugin_framework_version opt.pod.annotations

-- getServiceNamespace
unfoldable pub get_service_namespace : PatchOptions → String
get_service_namespace opt =
    if is_set_true annotation_key_workload_namespace_as_service_namespace opt.pod.annotations
    then opt.pod.namespace
    else "default"

abbrev pub name_of_plugin_default : String → String
name_of_plugin_default v = v ⋯ "-default-properties"

-- The default setting of one line, if it is one: a key and a value around one "=".
set_property : Dict String → List String → Dict String
set_property properties (k ∷ v ∷ []) =
    if not (k == "") && not (v == "")
    then insert (trim_space k) (trim_space v) properties
    else properties
set_property properties _ = properties

unfoldable pub default_properties_of : Dict String → List String → Dict String
unfolding set_property
default_properties_of properties [] = properties
default_properties_of properties (line ∷ rest) =
    let after = if is_comment line then properties else set_property properties (split b'=' line) in
    default_properties_of after rest

unfoldable pub export_conf : Dict String → String
export_conf [] = ""
export_conf (kv ∷ properties) = kv.0 ⋯ "=" ⋯ kv.1 ⋯ "\n" ⋯ export_conf properties

module _ (polaris_grpc polaris_config_grpc : String) (plugin_config_map : Outcome (Dict String))
    (render : String → Dict String → Outcome String) (unmarshal : String → Dict String × Bool) where
  -- defaultParam. An address without a colon panics.
  unfoldable pub default_param : PatchOptions → Exec InitState (Dict String)
  default_param opt = lift (part 0 (split b':' polaris_grpc)) >>= λ server_ip.
      lift (part 1 (split b':' polaris_grpc)) >>= λ discover_port.
      lift (part 0 (split b':' polaris_config_grpc)) >>= λ config_ip.
      lift (part 1 (split b':' polaris_config_grpc)) >>= λ config_port. pure (
        ("MicroserviceNamespace", get_service_namespace opt)
        ∷ ("MicroserviceName", index sidecar_service_name opt.annotations)
        ∷ ("PolarisServerIP", server_ip)
        ∷ ("PolarisDiscoverPort", discover_port)
        ∷ ("PolarisConfigIP", config_ip)
        ∷ ("PolarisConfigPort", config_port)
        ∷ [])

  abbrev pub server_env : Dict String → List EnvVar
  server_env param =
      variable "POLARIS_SERVER_IP" (index "PolarisServerIP" param)
      ∷ variable "POLARIS_DISCOVER_IP" (index "PolarisServerIP" param)
      ∷ variable "POLARIS_DISCOVER_PORT" (index "PolarisDiscoverPort" param)
      ∷ variable "POLARIS_CONFIG_IP" (index "PolarisConfigIP" param)
      ∷ variable "POLARIS_CONFIG_PORT" (index "PolarisConfigPort" param)
      ∷ []

  read_custom : Dict String → Dict String × Bool → Outcome (Dict String)
  read_custom properties (custom, true) = ok (merge properties custom)
  read_custom properties (custom, false) = err bad_body

  -- The user's settings go over the default ones.
  unfoldable pub with_custom : Option String → Dict String → Outcome (Dict String)
  unfolding read_custom
  with_custom none properties = ok properties
  with_custom (some config) properties = read_custom properties (unmarshal config)

  -- The settings that an old agent gets in a variable.
  unfoldable pub old_agent_conf : PatchOptions → Dict String → Exec InitState (Unit {0})
  old_agent_conf opt param = lift plugin_config_map >>= λ config.
      lift (render (index (name_of_plugin_default (plugin_type opt)) config) param) >>= λ text.
      lift (
        with_custom (lookup annotation_key_java_agent_plugin_config opt.pod.annotations)
          (default_properties_of [] (lines text)))
      >>= λ properties. append_env (variable "JAVA_AGENT_PLUGIN_CONF" (export_conf properties) ∷ [])

  -- The environment. An image that still has no tag panics.
  unfoldable pub complete_env : PatchOptions → Exec InitState (Unit {0})
  complete_env opt = append_env (framework_env opt) >> default_param opt >>= λ param.
      append_env (server_env param) >> gets (λ s. split b':' s.add.image) >>= λ new_image_info.
      lift (part 1 new_image_info) >>= λ version.
      when (is_old_version version) (old_agent_conf opt param)

  unfoldable pub handle_java_agent_init : PatchOptions → Exec InitState (Unit {0})
  handle_java_agent_init opt = choose_image opt >> complete_env opt

  -- One added container. An error is logged, and leaves what was done before it.
  kept : Outcome (Unit {0}) × InitState → Outcome Container × Dict String
  kept (panic, s) = (panic, s.external_info)
  kept (_, s) = (ok s.add, s.external_info)

  unfoldable pub handle_added : PatchOptions → Container → Exec (Dict String) Container
  unfolding kept
  handle_added opt add external =
      if add.name == java_agent_init_container
      then kept (handle_java_agent_init opt (record { add = add; external_info = external }))
      else (ok add, external)

  -- The loop over the added containers.
  unfoldable pub handle_all_added :
      PatchOptions → List Container → Exec (Dict String) (List Container)
  handle_all_added opt [] = pure []
  handle_all_added opt (c ∷ added) =
      handle_added opt c >>= λ c'. handle_all_added opt added >>= λ added'. pure (c' ∷ added')
