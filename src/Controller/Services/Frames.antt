-- ===== src/Controller/Services/Frames.antt =====
-- What the steps of syncService leave of the cache of services (pkg/controller/service.go).
use polaris_controller.Common.{refl, ◌&&◌, List, [], ◌∷◌}
use polaris_controller.Common.Outcome.{◌>>=◌, ◌>>◌, attempt, when, lift}
use polaris_controller.Kube.{Service}
use polaris_controller.Util.Names.{
  ServiceChangeType, service_polaris_delete, instance_ttl_changed, instance_weight_changed,
  instance_enable_register_changed, instance_metadata_changed, instance_custom_weight_changed,
  workload_kind, unchanged,
}
use polaris_controller.Util.Filter.{get_namespace, if_need_create_service_alias}
use polaris_controller.Api.Types.{PolarisService}
use polaris_controller.Api.Services.{
  create_namespaces, get_service_request, create_service_request, create_service_alias_request,
  update_service_request,
}
use polaris_controller.Controller.State.{Env, api}
use polaris_controller.Controller.Select.{is_polaris_service, compare_service_change}
use polaris_controller.Controller.Frames.{
  Keeps, Keeps-bind, Keeps-then, Keeps-when, Keeps-attempt, Keeps-attempted,
}
use polaris_controller.Controller.Instances.{
  process_sync_instance, delete_instances, get_all_instance, filter_polaris_metadata,
}
use polaris_controller.Controller.Instances.Frames.{
  process_sync_instance-Keeps, delete_instances-Keeps, get_all_instance-Keeps,
}
use polaris_controller.Controller.Services.{
  merge_labels, update_service, update_first, process_delete_service,
  process_sync_namespace_and_service, wants_alias, both_or_failed, ignore_error, process_change,
  process_update_service,
}

module _ (env : Env) where
  update_first-Keeps :
      (cur : Service) (services : List PolarisService) → Keeps (update_first env cur services)
  unfolding update_first
  update_first-Keeps cur [] p = refl
  update_first-Keeps cur (s ∷ rest) p =
      Keeps-bind (lift (merge_labels cur.labels s))
        (λ merged. api (update_service_request env.server env.access (merged ∷ []))) (λ q. refl)
        (λ merged q. refl) p

  update_service-Keeps : (cur : Service) → Keeps (update_service env cur)
  unfolding update_service
  update_service-Keeps cur =
      Keeps-bind (api (get_service_request env.server env.access cur)) (update_first env cur)
        (λ q. refl) (update_first-Keeps cur)

  pub process_delete_service-Keeps :
      (service : Service) → Keeps (process_delete_service env service)
  unfolding process_delete_service
  process_delete_service-Keeps service =
      Keeps-bind (get_all_instance env service)
        (λ instances. delete_instances env service (filter_polaris_metadata env instances))
        (get_all_instance-Keeps env service) (λ instances. delete_instances-Keeps env service _)

  pub process_sync_namespace_and_service-Keeps :
      (service : Service) → Keeps (process_sync_namespace_and_service env service)
  unfolding process_sync_namespace_and_service
  process_sync_namespace_and_service-Keeps service =
      let alias =
        when (wants_alias env service)
          (api (create_service_alias_request env.server env.access service)) in
      let create = api (create_service_request env.server env.access service) in
      let namespace = api (create_namespaces env.server env.access (get_namespace service)) in
      Keeps-when (is_polaris_service env service) (namespace >> (create >> alias)) (
        Keeps-then namespace (create >> alias) (λ q. refl)
          (Keeps-then create alias (λ q. refl)
            (Keeps-when (wants_alias env service) _ (λ q. refl))))

  process_change-Keeps :
      (c : ServiceChangeType) (old cur : Service) → Keeps (process_change env c old cur)
  unfolding process_change
  process_change-Keeps service_polaris_delete old cur p = process_delete_service-Keeps old p
  process_change-Keeps workload_kind old cur p =
      Keeps-bind (attempt (process_sync_instance env cur))
        (λ sync_err. attempt (process_delete_service env old) >>= λ delete_err.
          lift (both_or_failed env sync_err delete_err))
        (Keeps-attempt (process_sync_instance env cur) (process_sync_instance-Keeps env cur))
        (λ sync_err.
          Keeps-bind (attempt (process_delete_service env old))
            (λ delete_err. lift (both_or_failed env sync_err delete_err))
            (Keeps-attempt (process_delete_service env old) (process_delete_service-Keeps old))
            (λ delete_err q. refl))
        p
  process_change-Keeps instance_enable_register_changed old cur p = refl
  process_change-Keeps instance_ttl_changed old cur p = process_sync_instance-Keeps env cur p
  process_change-Keeps instance_weight_changed old cur p = process_sync_instance-Keeps env cur p
  process_change-Keeps instance_metadata_changed old cur p = process_sync_instance-Keeps env cur p
  process_change-Keeps instance_custom_weight_changed old cur p =
      process_sync_instance-Keeps env cur p
  process_change-Keeps unchanged old cur p = process_sync_instance-Keeps env cur p

  pub process_update_service-Keeps :
      (old cur : Service) → Keeps (process_update_service env old cur)
  unfolding process_update_service
  process_update_service-Keeps old cur =
      let request = api (create_service_alias_request env.server env.access cur) in
      let wanted = is_polaris_service env cur && if_need_create_service_alias old cur in
      let change = process_change env (compare_service_change env old cur) old cur in
      Keeps-then (when wanted (ignore_error request))
        (ignore_error (update_service env cur) >> change)
        (Keeps-when wanted (ignore_error request) (Keeps-attempted request (λ q. refl)))
        (Keeps-then (ignore_error (update_service env cur)) change
          (Keeps-attempted (update_service env cur) (update_service-Keeps cur))
          (process_change-Keeps _ old cur))
