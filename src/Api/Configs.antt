-- ===== src/Api/Configs.antt =====
-- pkg/polarisapi/config_api.go: config files made from ConfigMaps. The content is the data of the
-- ConfigMap before its encoding as YAML.
use polaris_controller.Common.{
  String, Bool, true, false, ◌&&◌, ◌==◌, if◌then◌else◌, [], ◌∷◌, ◌++◌, map, any,
}
use polaris_controller.Common.Dict.{Dict}
use polaris_controller.Common.Outcome.{lift, ◌>>=◌, ◌>>◌}
use polaris_controller.Kube.{ConfigMap}
use polaris_controller.Util.Names.Annotation
use polaris_controller.Util.Names.{internal_config_file_sync_source_key, source_from_kubernetes}
use polaris_controller.Api.Types.{
  ConfigFileTag, ConfigFile, create_config_file, update_config_file, delete_config_file,
  release_config_file,
}
use polaris_controller.Api.Http.{Server, Access, Io, polaris_http_request}
use polaris_controller.Api.Services.{existed_or_refused}

abbrev pub tag : String → String → ConfigFileTag
tag k v = record { key = k; value = v }

-- One round of the loop over the annotations.
unfoldable pub read_annotation : ConfigFile → String → String → ConfigFile
read_annotation file k v =
    if k == Annotation.enable_encrypt && v == "true"
    then record file { encrypted = true }
    else if k == Annotation.enable_encrypt_alog
    then record file { encrypt_algo = v }
    else if k == Annotation.config_group
    then record file { group = v }
    else record file { tags = file.tags ++ tag k v ∷ [] }

unfoldable pub read_annotations : ConfigFile → Dict String → ConfigFile
read_annotations file [] = file
read_annotations file ((k, v) ∷ rest) = read_annotations (read_annotation file k v) rest

-- existSourceKey
unfoldable pub has_source_key : Dict String → Bool
has_source_key = any (λ kv. kv.0 == internal_config_file_sync_source_key)

unfoldable pub parse_config_file_request : ConfigMap → ConfigFile
parse_config_file_request config_map =
    let file =
      read_annotations
        (record {
          name = config_map.name;
          namespace = config_map.namespace;
          group = "";
          content = config_map.content;
          encrypted = false;
          encrypt_algo = "";
          tags = [];
        })
        config_map.annotations in
    record file {
      tags =
          (file.tags ++ map (λ kv. tag kv.0 kv.1) config_map.labels)
          ++ (if has_source_key config_map.annotations
              then []
              else tag internal_config_file_sync_source_key source_from_kubernetes ∷ []);
    }

module _ (server : Server) (access : Access) where
  unfoldable pub release_config_map : ConfigFile → Io (Unit {0})
  release_config_map file = do
    answer ← polaris_http_request server access (release_config_file file)
    lift (existed_or_refused answer)

  unfoldable pub create_config_map : ConfigMap → Io (Unit {0})
  create_config_map config_map = do
    let req = parse_config_file_request config_map
    answer ← polaris_http_request server access (create_config_file req)
    lift (existed_or_refused answer)
    release_config_map req

  unfoldable pub update_config_map : ConfigMap → Io (Unit {0})
  update_config_map config_map = do
    let req = parse_config_file_request config_map
    answer ← polaris_http_request server access (update_config_file req)
    lift (existed_or_refused answer)
    release_config_map req

  unfoldable pub delete_config_map : ConfigMap → Io (Unit {0})
  delete_config_map config_map = do
    let req = parse_config_file_request config_map
    answer ← polaris_http_request server access (delete_config_file req)
    lift (existed_or_refused answer)
