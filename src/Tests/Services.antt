-- ===== src/Tests/Services.antt =====
-- Services and their caches at concrete inputs.
use polaris_controller.Common.{[], ◌∷◌, ◌≡◌, ◌≢◌, refl, some, none, true}
use polaris_controller.Common.Dict.{lookup, insert, delete, index, merge}
use polaris_controller.Common.Outcome.{remote, ok, err, for_each}
use polaris_controller.Util.Text.{itoa, last_part, atoi}
use polaris_controller.Util.Filter.{
  ignore_service, ignore_object, get_namespace, get_service_name, get_weight_from_service,
}
use polaris_controller.Api.Http.{look_access_token, polaris_http_request}
use polaris_controller.Api.Split.{split_array, page_count, split_from}
use polaris_controller.Api.Services.{
  existed_or_refused, namespace_existed_or_refused, create_namespaces, create_service_request,
}
use polaris_controller.Api.Instances
use polaris_controller.Address.{
  address_key, choose_weight, build_addresses, add_addresses, add_subsets,
  get_address_map_from_endpoints, meta_of, is_sync_instance, get_address_map_from_polaris_instance,
}
use polaris_controller.Controller.Tasks.{key, task_key}
use polaris_controller.Controller.State.{Env, found, new_polaris_controller, not_found}
use polaris_controller.Controller.Select.{is_polaris_service, is_polaris_config_map, sync_of}
use polaris_controller.Controller.Instances.{
  heart_beat_ttl, merge_metadata_with_service, instances_to_add, instances_to_delete,
  instances_to_update, add_instances, delete_instances, update_instances, get_all_instance,
  added_of, updated_of, compare_instance, filter_polaris_metadata, get_custom_weight,
  allows_register, process_sync_instance,
}
use polaris_controller.Controller.Services.{
  process_delete_service, process_sync_namespace_and_service, operation_service, sync_service,
}
use polaris_controller.Controller.Services.Isolation.{sync_service-others, sync_service-fails}
use polaris_controller.Controller.Services.Caching.{sync_service-stores, sync_service-forgets}
use polaris_controller.Controller.ConfigMaps.{
  sync_config_map, stored_config_map, process_sync_namespace_and_config_map, operation_config_map,
  is_copied, annotate,
}
use polaris_controller.Controller.ConfigMaps.Caching.{sync_config_map-stores}
use polaris_controller.Kube.{ConfigMap}
use polaris_controller.Api.Configs
use polaris_controller.Tests.{reviews_meta, sample_env, reviews, reviews_task, seen}

-- The first synchronisation registers the pod and removes the instance of the pod that is gone.
first_sync_succeeds : (sync_service sample_env reviews_task new_polaris_controller).0 ≡ ok tt
unfolding sync_service lookup insert delete index merge for_each itoa last_part atoi ignore_service
    ignore_object get_namespace get_service_name get_weight_from_service look_access_token
    polaris_http_request split_array existed_or_refused namespace_existed_or_refused
    create_namespaces create_service_request address_key choose_weight build_addresses add_addresses
    add_subsets get_address_map_from_endpoints meta_of is_sync_instance
    get_address_map_from_polaris_instance key task_key is_polaris_service sync_of
    merge_metadata_with_service instances_to_add instances_to_delete add_instances delete_instances
    update_instances get_all_instance compare_instance added_of updated_of get_custom_weight
    allows_register process_sync_instance process_sync_namespace_and_service operation_service
    instances_to_update heart_beat_ttl Instances.add_instances_request Instances.send_batches
    split_from page_count Instances.read_add Instances.get_error
    Instances.deal_add_instance_response Instances.delete_instances_request Instances.read_unless_ok
first_sync_succeeds = refl

reviews_is_polaris :
    is_polaris_service sample_env (operation_service sample_env reviews_task.operation reviews)
    ≡ true
unfolding is_polaris_service operation_service ignore_service ignore_object sync_of index lookup
reviews_is_polaris = refl

first_sync_stores :
    lookup
      (key reviews_task)
      (sync_service sample_env reviews_task new_polaris_controller).1.service_cache
    ≡ some reviews
unfolding lookup
first_sync_stores =
    sync_service-stores sample_env reviews_task reviews new_polaris_controller refl
      reviews_is_polaris first_sync_succeeds

abbrev deleted_env : Env
deleted_env = record sample_env { services = λ _ _. not_found }

deletion_succeeds : (sync_service deleted_env reviews_task seen).0 ≡ ok tt
unfolding sync_service lookup key itoa process_delete_service get_all_instance delete_instances
    filter_polaris_metadata is_sync_instance index Instances.delete_instances_request
    Instances.send_batches split_array split_from page_count instances_to_delete
    Instances.read_unless_ok polaris_http_request Instances.get_error
deletion_succeeds = refl

deletion_forgets :
    lookup (key reviews_task) (sync_service deleted_env reviews_task seen).1.service_cache ≡ none
deletion_forgets = sync_service-forgets deleted_env reviews_task seen refl deletion_succeeds

other_service_stays :
    lookup "default|ratings|2" (sync_service sample_env reviews_task seen).1.service_cache
    ≡ lookup "default|ratings|2" seen.service_cache
unfolding key task_key itoa
other_service_stays = sync_service-others sample_env reviews_task seen "default|ratings|2" refl

-- A controller without the endpoints of the service.
abbrev bare_env : Env
bare_env = record sample_env { endpoints = λ _ _. not_found }

first_sync_error : (sync_service bare_env reviews_task new_polaris_controller).0 ≡ err (remote 404)
unfolding sync_service lookup process_sync_namespace_and_service operation_service
    is_polaris_service ignore_service ignore_object sync_of create_namespaces create_service_request
    index look_access_token polaris_http_request existed_or_refused namespace_existed_or_refused
    process_sync_instance
first_sync_error = refl

first_sync_fails : (sync_service bare_env reviews_task new_polaris_controller).0 ≢ ok tt
first_sync_fails = rw first_sync_error (λ h. cc)

failure_keeps_cache :
    (sync_service bare_env reviews_task new_polaris_controller).1.service_cache
    ≡ new_polaris_controller.service_cache
failure_keeps_cache =
    sync_service-fails bare_env reviews_task new_polaris_controller first_sync_fails

-- An environment with one ConfigMap, which is Polaris's.
abbrev settings_map : ConfigMap
settings_map = record { meta = reviews_meta; content = ("a", "b") ∷ [] }

abbrev config_env : Env
config_env = record sample_env { config_maps = λ _ _. found settings_map }

config_map_sync_succeeds :
    (sync_config_map config_env reviews_task new_polaris_controller).0 ≡ ok tt
unfolding sync_config_map lookup process_sync_namespace_and_config_map is_polaris_config_map
    ignore_object operation_config_map is_copied sync_of annotate insert create_namespaces
    polaris_http_request namespace_existed_or_refused Configs.create_config_map existed_or_refused
    Configs.release_config_map
config_map_sync_succeeds = refl

config_map_is_cached :
    lookup
      (key reviews_task)
      (sync_config_map config_env reviews_task new_polaris_controller).1.config_file_cache
    ≡ some (stored_config_map config_env reviews_task.operation settings_map)
config_map_is_cached =
    sync_config_map-stores config_env reviews_task settings_map new_polaris_controller refl
      config_map_sync_succeeds
