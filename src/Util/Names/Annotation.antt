-- ===== src/Util/Names/Annotation.antt =====
-- pkg/util/types.go: the annotation keys that the controller reads.
use polaris_controller.Common.{String}

abbrev pub sync : String
sync = "polarismesh.cn/sync"

abbrev pub enable_register : String
enable_register = "polarismesh.cn/enableRegister"

abbrev pub alias_namespace : String
alias_namespace = "polarismesh.cn/aliasNamespace"

abbrev pub alias_service : String
alias_service = "polarismesh.cn/aliasService"

abbrev pub overide_namespace : String
overide_namespace = "polarismesh.cn/overideNamespace"

abbrev pub overide_service : String
overide_service = "polarismesh.cn/overideService"

abbrev pub metadata : String
metadata = "polarismesh.cn/metadata"

abbrev pub weight : String
weight = "polarismesh.cn/weight"

abbrev pub heart_beat_ttl : String
heart_beat_ttl = "polarismesh.cn/ttl"

abbrev pub workload_kind : String
workload_kind = "polarismesh.cn/workloadKind"

abbrev pub custom_weight : String
custom_weight = "polarismesh.cn/customWeight"

abbrev pub custom_version : String
custom_version = "polarismesh.cn/customVersion"

abbrev pub config_group : String
config_group = "polarismesh.cn/configGroup"

abbrev pub enable_encrypt : String
enable_encrypt = "polarismesh.cn/enableEncrypt"

abbrev pub enable_encrypt_alog : String
enable_encrypt_alog = "polarismesh.cn/enableEncryptAlog"
