-- ===== src/Api/Services.antt =====
-- pkg/polarisapi/service_api.go: namespaces, services and aliases.
use polaris_controller.Common.{
  ℕ, String, ◌||◌, Bool, false, eqb, ◌==◌, if◌then◌else◌, Option, none, some, List, [], ◌∷◌,
}
use polaris_controller.Common.Dict.{index}
use polaris_controller.Common.Outcome.{
  bad_body, refused, empty_namespace, empty_service_name, Outcome, ok, err, raise, lift, ◌>>=◌,
  ◌>>◌,
}
use polaris_controller.Kube.{Service}
use polaris_controller.Util.Names.Annotation
use polaris_controller.Util.Filter.{get_namespace, get_service_name}
use polaris_controller.Api.Types.{
  existed_resource, PolarisService, ItemResponse, Body, create_namespace, get_service,
  create_service, update_service, create_service_alias,
}
use polaris_controller.Api.Http.{Server, Access, Io, status_ok, polaris_http_request}

-- Any status but 200 is an error, unless the body has the code of an existing resource.
unfoldable pub existed_or_refused : ℕ × Option Body → Outcome (Unit {0})
existed_or_refused (status, none) = if eqb status status_ok then ok tt else err bad_body
existed_or_refused (status, some response) =
    if eqb status status_ok || eqb response.code existed_resource
    then ok tt
    else err (refused response.code)

first_existed : List ItemResponse → Bool
first_existed [] = false
first_existed (r ∷ rest) = eqb r.code existed_resource

-- CreateNamespaces looks for that code in the first element of `responses`.
unfoldable pub namespace_existed_or_refused : ℕ × Option Body → Outcome (Unit {0})
unfolding first_existed
namespace_existed_or_refused (status, none) = if eqb status status_ok then ok tt else err bad_body
namespace_existed_or_refused (status, some response) =
    if eqb status status_ok || first_existed response.responses
    then ok tt
    else err (refused response.code)

-- GetService decodes the body first, and then looks at the status.
unfoldable pub services_or_refused : ℕ × Option Body → Outcome (List PolarisService)
services_or_refused (status, none) = err bad_body
services_or_refused (status, some response) =
    if eqb status status_ok then ok response.services else err (refused response.code)

-- UpdateService: any status but 200 is an error.
unfoldable pub ok_or_refused : ℕ × Option Body → Outcome (Unit {0})
ok_or_refused (status, none) = if eqb status status_ok then ok tt else err bad_body
ok_or_refused (status, some response) =
    if eqb status status_ok then ok tt else err (refused response.code)

module _ (server : Server) (access : Access) where
  unfoldable pub create_namespaces : String → Io (Unit {0})
  create_namespaces namespace = do
    answer ← polaris_http_request server access (create_namespace namespace)
    lift (namespace_existed_or_refused answer)

  unfoldable pub get_service_request : Service → Io (List PolarisService)
  get_service_request service =
      if get_namespace service == ""
      then raise empty_namespace
      else if get_service_name service == ""
      then raise empty_service_name
      else do
        answer ←
            polaris_http_request server access
              (get_service (get_namespace service) (get_service_name service))
        lift (services_or_refused answer)

  unfoldable pub create_service_request : Service → Io (Unit {0})
  create_service_request service = do
    answer ← polaris_http_request server access (
        create_service (get_namespace service) (get_service_name service) service.ports
          service.labels)
    lift (existed_or_refused answer)

  -- CreateServiceAlias creates the namespace of the alias first.
  unfoldable pub create_service_alias_request : Service → Io (Unit {0})
  create_service_alias_request service = do
    create_namespaces (index Annotation.alias_namespace service.annotations)
    answer ← polaris_http_request server access (
        create_service_alias (get_service_name service) (get_namespace service)
          (index Annotation.alias_service service.annotations)
          (index Annotation.alias_namespace service.annotations))
    lift (existed_or_refused answer)

  unfoldable pub update_service_request : List PolarisService → Io (Unit {0})
  update_service_request request = do
    answer ← polaris_http_request server access (update_service request)
    lift (ok_or_refused answer)
