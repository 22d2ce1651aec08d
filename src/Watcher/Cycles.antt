-- ===== src/Watcher/Cycles.antt =====
-- Objects that go round: a ConfigMap written to Polaris and read back, and a config file of Polaris
-- written to a ConfigMap and seen by the controller.
use polaris_controller.Common.{
  ℕ, String, ◌≡◌, refl, true, false, ◌||◌, ◌==◌, Option, List, [], ◌∷◌, ◌++◌, map, arith, eq_refl,
  Bool-cases, inl, inr,
}
use polaris_controller.Common.Dict.{Dict, insert, lookup}
use polaris_controller.Kube.{ConfigMap}
use polaris_controller.Util.Names.{internal_config_file_sync_source_cluster_key}
use polaris_controller.Util.Filter.{ignore_object}
use polaris_controller.Api.Types.{ConfigFileTag}
use polaris_controller.Api.Configs.{tag, parse_config_file_request}
use polaris_controller.Controller.Tasks.{Operation}
use polaris_controller.Controller.State.{Env}
use polaris_controller.Controller.Select.{is_polaris_config_map}
use polaris_controller.Controller.ConfigMaps.{annotate, operation_config_map, is_copied}
use polaris_controller.Watcher.{FileContent, has_tag, allow_sync_to_config_map, config_map_of}

has_tag-append :
    (k v : String) (xs ys : List ConfigFileTag)
    → has_tag k v (xs ++ ys) ≡ (has_tag k v xs || has_tag k v ys)
unfolding has_tag
has_tag-append k v [] ys = refl
has_tag-append k v (x ∷ xs) ys = rw (has_tag-append k v xs ys) (ground arith)

has_tag-insert :
    (k v : String) (labels : Dict String)
    → has_tag k v (map (λ kv. tag kv.0 kv.1) (insert k v labels)) ≡ true
unfolding has_tag insert
has_tag-insert k v [] = rw (eq_refl k, eq_refl v) refl
has_tag-insert k v ((j, w) ∷ labels) = elim (Bool-cases (j == k)) [
  | inl here ↦ rw (here, eq_refl k, eq_refl v) refl
  | inr other ↦ rw (other, has_tag-insert k v labels) (ground arith)
]

-- The tags of a file hold every label of its ConfigMap.
has_tag-parse :
    (k v : String) (cm : ConfigMap)
    → has_tag k v (map (λ kv. tag kv.0 kv.1) cm.labels) ≡ true
    → has_tag k v (parse_config_file_request cm).tags ≡ true
unfolding parse_config_file_request
has_tag-parse k v cm h =
    rw (has_tag-append k v _ _, has_tag-append k v _ (map (λ kv. tag kv.0 kv.1) cm.labels), h)
      (ground arith)

has_tag-annotate :
    (env : Env) (cm : ConfigMap)
    → has_tag internal_config_file_sync_source_cluster_key env.config.cluster_name
        (parse_config_file_request (annotate env cm)).tags
      ≡ true
unfolding annotate
has_tag-annotate env cm = has_tag-parse _ _ (annotate env cm) (has_tag-insert _ _ _)

has_tag-operation :
    (env : Env) (op : Operation) (cm : ConfigMap)
    → has_tag internal_config_file_sync_source_cluster_key env.config.cluster_name
        (parse_config_file_request (operation_config_map env op cm)).tags
      ≡ true
unfolding operation_config_map
has_tag-operation env op cm = elim (Bool-cases (is_copied env op cm)) [
  | inl here ↦ rw here (has_tag-annotate env _)
  | inr other ↦ rw other (has_tag-annotate env cm)
]

-- A file with the tags that syncConfigMap gives to a ConfigMap of a cluster is never written back
-- into a ConfigMap of that cluster, whatever the operation and the file's names and version.
pub allow_sync_to_config_map-own :
    (env : Env) (op : Operation) (cm : ConfigMap) (namespace file_name : String)
    (group : Option String) (version : Option ℕ)
    → allow_sync_to_config_map env.config.cluster_name (record {
      namespace = namespace;
      group = group;
      file_name = file_name;
      version = version;
      tags = (parse_config_file_request (operation_config_map env op cm)).tags;
    })
      ≡ false
unfolding allow_sync_to_config_map
allow_sync_to_config_map-own env op cm namespace file_name group version =
    rw (has_tag-operation env op cm) (ground arith)

-- A ConfigMap that was written from a file of Polaris is not one that is sent to Polaris, whatever
-- the configuration and its namespace.
pub is_polaris_config_map-written :
    (env : Env) (file : FileContent) → is_polaris_config_map env (config_map_of file) ≡ false
unfolding is_polaris_config_map config_map_of lookup
is_polaris_config_map-written env file =
    elim (Bool-cases (ignore_object (config_map_of file).meta)) [
      | inl ignored ↦ rw ignored refl
      | inr other ↦ rw other refl
    ]
