-- ===== src/Api/Types.antt =====
-- pkg/polarisapi/types.go and constant.go: what is sent to the server and what it answers. Fields
-- that the controller never sets are left out.
use polaris_controller.Common.{ℕ, String, Bool, Option, List}
use polaris_controller.Common.Dict.{Dict}
use polaris_controller.Common.Int.{ℤ}

abbrev pub existed_resource : ℕ
existed_resource = 400201

abbrev pub source : String
source = "polaris-controller"

-- HealthCheck with its Heartbeat
pub record HealthCheck : Type 0 where
  pub kind : Option ℕ
  pub ttl : ℕ

-- Instance: an optional field is a pointer or has `omitempty`.
pub record Instance : Type 0 where
  pub service : String
  pub namespace : String
  pub service_token : String
  pub host : String
  pub port : Option ℕ
  pub protocol : String
  pub version : String
  pub weight : Option ℤ
  pub enable_health_check : Option Bool
  pub health_check : Option HealthCheck
  pub healthy : Option Bool
  pub isolate : Option Bool
  pub metadata : Dict String

-- Service, as GetService reads it and UpdateService sends it back
pub record PolarisService : Type 0 where
  pub name : String
  pub namespace : String
  pub metadata : Option (Dict String)

pub record ConfigFileTag : Type 0 where
  pub key : String
  pub value : String

pub record ConfigFile : Type 0 where
  pub name : String
  pub namespace : String
  pub group : String
  pub content : Dict String
  pub encrypted : Bool
  pub encrypt_algo : String
  pub tags : List ConfigFileTag

-- InstanceResponse and CreateNamespaceResponse: an element of the array `responses`
pub record ItemResponse : Type 0 where
  pub code : ℕ
  pub host : String
  pub port : ℕ

-- What the decoders read from a body: the keys `code`, `responses`, `services` and, for the token,
-- `user.auth_token`.
pub record Body : Type 0 where
  pub code : ℕ
  pub responses : List ItemResponse
  pub services : List PolarisService
  pub auth_token : String

-- A request: its method, path and body.
pub data Request : Type 0 where
  get_user_token : String → Request
  check_health : Request
  create_namespace : String → Request
  get_service : (namespace name : String) → Request
  create_service : (namespace name : String) (ports : List ℕ) (metadata : Dict String) → Request
  update_service : List PolarisService → Request
  create_service_alias : (service namespace alias alias_namespace : String) → Request
  add_instances : List Instance → Request
  delete_instances : List Instance → Request
  update_instances : List Instance → Request
  create_config_file : ConfigFile → Request
  update_config_file : ConfigFile → Request
  delete_config_file : ConfigFile → Request
  release_config_file : ConfigFile → Request

pub record Sent : Type 0 where
  pub token : String
  pub request : Request

-- `unreachable` is an error of the transport; `answered` has the status code, and the body where
-- it decodes.
pub data Reply : Type 0 where
  unreachable : ℕ → Reply
  answered : ℕ → Option Body → Reply
