-- ===== src/Watcher.antt =====
-- pkg/controller/configmap.go: PolarisConfigWatcher, which writes config files of Polaris into
-- ConfigMaps. The stream to the server, the SDK's file reader and the Kubernetes client are outside;
-- what is sent to them is recorded, newest first.
pub mod Cycles
pub mod Revisions
use polaris_controller.Common.{
  ℕ, String, Bool, true, false, not, ◌&&◌, ◌==◌, leb, if◌then◌else◌, Option, none, some, List, [],
  ◌∷◌, any,
}
use polaris_controller.Common.Dict.{Dict, lookup, insert, delete}
use polaris_controller.Common.Outcome.{ok, panic, Exec, pure, crash, modify, ◌>>=◌, ◌>>◌}
use polaris_controller.Kube.{ConfigMap}
use polaris_controller.Util.Names.{
  source_from_kubernetes, source_from_polaris, internal_config_file_sync_source_key,
  internal_config_file_sync_source_cluster_key,
}
use polaris_controller.Util.Text.{◌⋯◌}
use polaris_controller.Api.Types.{ConfigFileTag}

abbrev pub meta_key_config_file_sync_to_kubernetes : String
meta_key_config_file_sync_to_kubernetes = "internal-sync-to-kubernetes"

-- config_manage.ClientConfigFileInfo. The fields are wrappers, which may be nil: of the namespace and the
-- name only GetValue is read, which is "" then; the other two are dereferenced.
pub record FileInfo : Type 0 where
  pub namespace : String
  pub group : Option String
  pub file_name : String
  pub version : Option ℕ
  pub tags : List ConfigFileTag

-- configFileRefrence
pub record FileReference : Type 0 where
  pub revision : ℕ
  pub info : FileInfo

-- What the SDK reads of a file.
pub record FileContent : Type 0 where
  pub namespace : String
  pub group : String
  pub file_name : String
  pub content : String
  pub labels : Dict String

pub data DiscoverRequest : Type 0 where
  config_file_groups : (namespace revision : String) → DiscoverRequest
  config_file_names : (namespace group revision : String) → DiscoverRequest

pub data KubeCall : Type 0 where
  create_config_map update_config_map : ConfigMap → KubeCall
  delete_config_map : (namespace name : String) → KubeCall

pub record Watcher : Type 0 where
  pub namespaces : Dict (Unit {0})
  pub need_sync_files : Dict (Dict (Dict FileReference))
  pub files_revisions : Dict String
  pub groups : Dict (Dict (Unit {0}))
  pub group_revisions : Dict String
  pub discovered : List DiscoverRequest
  pub fetched : List FileInfo
  pub kube_calls : List KubeCall

pub data EventType : Type 0 where
  added modified deleted bookmark : EventType

-- One event of watchNamespaces.
unfoldable pub watch_namespace : EventType → String → Watcher → Watcher
watch_namespace added name w = record w { namespaces = insert name tt w.namespaces }
watch_namespace modified name w = record w { namespaces = insert name tt w.namespaces }
watch_namespace deleted name w = record w { namespaces = delete name w.namespaces }
watch_namespace bookmark name w = w

-- ComputeIfAbsent of SyncMap: the value under a key, and whether it is new.
unfoldable pub compute_if_absent {ℓ} : {V : Type ℓ} → String → V → Dict V → V × Bool × Dict V
compute_if_absent k v m = elim (lookup k m) [
  | none ↦ (v, true, insert k v m)
  | some actual ↦ (actual, false, m)
]

-- preRevision, _ := revisions.Load(key)
revision_of : Option String → String
revision_of none = ""
revision_of (some r) = r

unfoldable pub fetch_groups : String → Watcher → Watcher
unfolding revision_of
fetch_groups ns w = record w {
  groups = (compute_if_absent ns [] w.groups).2;
  need_sync_files = (compute_if_absent ns [] w.need_sync_files).2;
  discovered = config_file_groups ns (revision_of (lookup ns w.group_revisions)) ∷ w.discovered;
}

unfoldable pub fetch_config_files : String → String → Watcher → Watcher
unfolding revision_of
fetch_config_files namespace group w = record w {
  discovered =
      config_file_names namespace group
        (revision_of (lookup (namespace ⋯ "/" ⋯ group) w.files_revisions))
      ∷ w.discovered;
}

fetch_files_of : String → Dict (Unit {0}) → Watcher → Watcher
fetch_files_of ns [] w = w
fetch_files_of ns ((group, _) ∷ groups) w = fetch_files_of ns groups (fetch_config_files ns group w)

fetch_bucket : String → Option (Dict (Unit {0})) → Watcher → Watcher
fetch_bucket ns none w = w
fetch_bucket ns (some groups) w = fetch_files_of ns groups w

-- One tick of fetchResources, over the namespaces that the set holds at its start.
unfoldable pub fetch_namespaces : Dict (Unit {0}) → Watcher → Watcher
unfolding fetch_files_of fetch_bucket
fetch_namespaces [] w = w
fetch_namespaces ((ns, _) ∷ rest) w =
    let w' = fetch_groups ns w in fetch_namespaces rest (fetch_bucket ns (lookup ns w'.groups) w')

-- Two maps that the loop of receiveGroups looks a namespace up in; a missing one is a nil pointer
-- whose lock is taken.
store_group :
    String
    → String
    → Option (Dict (Unit {0}))
    → Option (Dict (Dict FileReference))
    → Exec Watcher (Unit {0})
store_group ns group (some groups) (some bucket) w = (
  ok tt,
  record w {
    groups = insert ns (insert group tt groups) w.groups;
    need_sync_files = insert ns (compute_if_absent group [] bucket).2 w.need_sync_files;
  },
)
store_group ns group (some groups) none w =
    (panic, record w { groups = insert ns (insert group tt groups) w.groups })
store_group ns group none bucket w = (panic, w)

unfoldable pub receive_group_items : List (String × String) → Exec Watcher (Unit {0})
unfolding store_group
receive_group_items [] = pure tt
receive_group_items ((ns, group) ∷ rest) =
    (λ w. store_group ns group (lookup ns w.groups) (lookup ns w.need_sync_files) w)
    >> receive_group_items rest

-- receiveGroups: the namespace and revision of the response, and its groups with their namespaces.
unfoldable pub receive_groups : String → String → List (String × String) → Exec Watcher (Unit {0})
receive_groups ns_val revision [] = pure tt
receive_groups ns_val revision (g ∷ groups) = do
  modify (λ w. record w { group_revisions = insert ns_val revision w.group_revisions })
  receive_group_items (g ∷ groups)

has_tag : String → String → List ConfigFileTag → Bool
has_tag k v = any (λ t. t.key == k && t.value == v)

-- allowSyncToConfigMap: asked for by a tag, not from Kubernetes, and not from this cluster.
unfoldable pub allow_sync_to_config_map : String → FileInfo → Bool
unfolding has_tag
allow_sync_to_config_map cluster_name file =
    has_tag meta_key_config_file_sync_to_kubernetes "true" file.tags
    && (not (has_tag internal_config_file_sync_source_key source_from_kubernetes file.tags)
        && not (has_tag internal_config_file_sync_source_cluster_key cluster_name file.tags))

abbrev pub config_map_name : String → String → String
config_map_name group file_name = group ⋯ "-" ⋯ file_name

store_files : String → String → Dict (Dict FileReference) → Dict FileReference → Watcher → Watcher
store_files ns group bucket files w = record w {
  need_sync_files = insert ns (insert group files bucket) w.need_sync_files;
}

-- The reference of a file that may be synchronised, and whether its content is to be read.
unfoldable pub next_reference : FileInfo → ℕ → Option FileReference → FileReference × Bool
next_reference item version none = (record { revision = version; info = item }, true)
next_reference item version (some val) =
    if leb val.revision version then (record val { revision = version }, true) else (val, false)

receive_allowed :
    FileInfo
    → String
    → Dict (Dict FileReference)
    → Dict FileReference
    → FileReference × Bool
    → Watcher
    → Watcher
receive_allowed item group bucket files (val, true) w =
    store_files item.namespace group bucket (insert item.file_name val files)
      (record w { fetched = val.info ∷ w.fetched })
receive_allowed item group bucket files (val, false) w = w

receive_refused :
    Bool → FileInfo → String → Dict (Dict FileReference) → Dict FileReference → Watcher → Watcher
receive_refused allow_delete item group bucket files w =
    store_files item.namespace group bucket (delete item.file_name files) (
      if allow_delete
      then record w {
        kube_calls =
            delete_config_map item.namespace (config_map_name group item.file_name) ∷ w.kube_calls;
      }
      else w)

module _ (cluster_name : String) (allow_delete : Bool) where
  -- item.GetVersion().Value
  receive_version :
      FileInfo
      → String
      → Dict (Dict FileReference)
      → Dict FileReference
      → Option ℕ
      → Exec Watcher (Unit {0})
  receive_version item group bucket files none = crash
  receive_version item group bucket files (some version) = modify (
      receive_allowed item group bucket files
        (next_reference item version (lookup item.file_name files)))

  receive_in_files :
      FileInfo
      → String
      → Option (Dict FileReference)
      → Dict (Dict FileReference)
      → Exec Watcher (Unit {0})
  receive_in_files item group none bucket = crash
  receive_in_files item group (some files) bucket =
      if allow_sync_to_config_map cluster_name item
      then receive_version item group bucket files item.version
      else modify (receive_refused allow_delete item group bucket files)

  receive_in_bucket :
      FileInfo → String → Option (Dict (Dict FileReference)) → Exec Watcher (Unit {0})
  receive_in_bucket item group none = crash
  receive_in_bucket item group (some bucket) =
      receive_in_files item group (lookup group bucket) bucket

  -- item.GetGroup().Value
  receive_group : FileInfo → Option String → Exec Watcher (Unit {0})
  receive_group item none w = (panic, w)
  receive_group item (some group) w =
      receive_in_bucket item group (lookup item.namespace w.need_sync_files) w

  -- One round of receiveConfigFiles. A namespace or a group that was never fetched is a nil map.
  unfoldable pub receive_config_file : FileInfo → Exec Watcher (Unit {0})
  unfolding receive_group receive_in_bucket receive_in_files receive_version receive_allowed
      receive_refused store_files
  receive_config_file item = receive_group item item.group

  unfoldable pub receive_config_files : List FileInfo → Exec Watcher (Unit {0})
  receive_config_files [] = pure tt
  receive_config_files (item ∷ files) = receive_config_file item >> receive_config_files files

-- What the client answers to the creation of a ConfigMap.
pub data CreateReply : Type 0 where
  created already_exists refused : CreateReply

-- The ConfigMap that fetchConfigFile writes.
unfoldable pub config_map_of : FileContent → ConfigMap
config_map_of file = record {
  meta = record {
    namespace = file.namespace;
    name = config_map_name file.group file.file_name;
    labels = file.labels;
    annotations = (internal_config_file_sync_source_key, source_from_polaris) ∷ [];
  };
  content = (file.file_name, file.content) ∷ [];
}

upsert : CreateReply → ConfigMap → Watcher → Watcher
upsert already_exists cm w = record w {
  kube_calls = update_config_map cm ∷ create_config_map cm ∷ w.kube_calls;
}
upsert _ cm w = record w { kube_calls = create_config_map cm ∷ w.kube_calls }

-- fetchConfigFile, with the SDK's answer and the client's.
unfoldable pub fetch_config_file :
    Option FileContent → (ConfigMap → CreateReply) → Watcher → Watcher
unfolding upsert
fetch_config_file none reply w = w
fetch_config_file (some file) reply w = upsert (reply (config_map_of file)) (config_map_of file) w
