-- ===== src/Kube.antt =====
-- The Kubernetes objects that the controller reads, with the fields that it reads. They are the
-- structs of k8s.io/api/core/v1; a pointer or a map that the program compares with nil is an Option.
use polaris_controller.Common.{ℕ, String, Option, List}
use polaris_controller.Common.Dict.{Dict}

pub record ObjectMeta : Type 0 where
  pub namespace : String
  pub name : String
  pub labels : Dict String
  pub annotations : Dict String

-- v1.Service; `ports` is read for its length only.
pub record Service : Type 0 where
  pub meta : ObjectMeta
  pub open meta use *
  pub ports : List ℕ
  pub selector : Option (Dict String)

-- v1.Namespace; its own `namespace` field is "".
pub record NamespaceObject : Type 0 where
  pub meta : ObjectMeta
  pub open meta use *

-- v1.ConfigMap
pub record ConfigMap : Type 0 where
  pub meta : ObjectMeta
  pub open meta use *
  pub content : Dict String

-- v1.ObjectReference, the TargetRef of an endpoint address
pub record TargetRef : Type 0 where
  pub namespace : String
  pub name : String

pub record EndpointAddress : Type 0 where
  pub ip : String
  pub target_ref : Option TargetRef

pub record EndpointPort : Type 0 where
  pub name : String
  pub port : ℕ
  pub protocol : String

pub record EndpointSubset : Type 0 where
  pub addresses : List EndpointAddress
  pub not_ready_addresses : List EndpointAddress
  pub ports : List EndpointPort

pub record Endpoints : Type 0 where
  pub meta : ObjectMeta
  pub open meta use *
  pub subsets : List EndpointSubset

-- What an informer hands to an event handler as an interface{}; `tombstone` is the
-- DeletedFinalStateUnknown of client-go.
pub data Object : Type 0 where
  service : Service → Object
  endpoints : Endpoints → Object
  namespace_object : NamespaceObject → Object
  config_map : ConfigMap → Object
  tombstone : Object
