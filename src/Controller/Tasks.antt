-- ===== src/Controller/Tasks.antt =====
-- pkg/controller/types.go: the tasks of the work queue.
pub mod Keys
use polaris_controller.Common.{ℕ, String, Bool}
use polaris_controller.Util.Text.{◌⋯◌, itoa}

pub data ObjectType : Type 0 where
  kubernetes_namespace kubernetes_service kubernetes_config_map kubernetes_endpoints : ObjectType

-- The values that iota gives them.
abbrev pub object_type_value : ObjectType → ℕ
object_type_value kubernetes_namespace = 1
object_type_value kubernetes_service = 2
object_type_value kubernetes_config_map = 3
object_type_value kubernetes_endpoints = 4

-- type Operation string
abbrev pub Operation : Type 0
Operation = String

abbrev pub operation_empty : Operation
operation_empty = ""

abbrev pub operation_add : Operation
operation_add = "Add"

abbrev pub operation_update : Operation
operation_update = "Update"

abbrev pub operation_delete : Operation
operation_delete = "Delete"

-- ResourceKeyFlagAdd of controller.go
abbrev pub resource_key_flag_add : String
resource_key_flag_add = "add"

pub record Task : Type 0 where
  pub namespace : String
  pub name : String
  pub rsync : Bool
  pub object_type : ObjectType
  pub operation : Operation

unfoldable pub task_key : String → String → ObjectType → String
task_key namespace name object_type =
    namespace ⋯ "|" ⋯ name ⋯ "|" ⋯ itoa (object_type_value object_type)

-- Task.Key
unfoldable pub key : Task → String
unfolding task_key
key t = task_key t.namespace t.name t.object_type
