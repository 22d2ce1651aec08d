-- ===== src/Inject/Validate.antt =====
-- pkg/inject/pkg/kube/inject/validate_funcs.go and inject.go: the values of annotations that a mode accepts.
-- net.ParseCIDR is a parameter.
use polaris_controller.Common.{
  ℕ, String, Bool, true, false, ◌==◌, ltb, any, all, if◌then◌else◌, Option, none, some, List, [],
  ◌∷◌,
}
use polaris_controller.Common.Dict.{Dict}
use polaris_controller.Util.Text.{read_digits}
use polaris_controller.Util.Split.{split, trim_space}
use polaris_controller.Util.Names.{SidecarMode, sidecar_for_mesh}

-- strconv.ParseUint(s, 10, 16)
parse_uint16 : String → Option ℕ
parse_uint16 s = if s == "" then none else below (read_digits 0 s)
  where
    below : Option ℕ → Option ℕ
    below none = none
    below (some n) = if ltb n 65536 then some n else none

-- parsePort
unfoldable pub parse_port : String → Option ℕ
unfolding parse_uint16
parse_port port_str = parse_uint16 (trim_space port_str)

onto : Option ℕ → Option (List ℕ) → Option (List ℕ)
onto none ports = none
onto (some port) none = none
onto (some port) (some ports) = some (port ∷ ports)

parse_each : List String → Option (List ℕ)
unfolding onto
parse_each [] = some []
parse_each (port_str ∷ rest) = onto (parse_port port_str) (parse_each rest)

-- parsePorts
unfoldable pub parse_ports : String → Option (List ℕ)
unfolding parse_each
parse_ports ports_string =
    let trimmed = trim_space ports_string in
    if trimmed == "" then some [] else parse_each (split b',' trimmed)

abbrev pub is_valid {ℓ} : {A : Type ℓ} → Option A → Bool
is_valid none = false
is_valid (some a) = true

abbrev pub bool_words : List String
bool_words =
    "1" ∷ "t" ∷ "T" ∷ "TRUE" ∷ "true" ∷ "True" ∷ "0" ∷ "f" ∷ "F" ∷ "FALSE" ∷ "false" ∷ "False" ∷ []

-- validateBool
unfoldable pub validate_bool : String → Bool
validate_bool value = any (λ w. w == value) bool_words

module _ (is_cidr : String → Bool) where
  -- validateCIDRList
  unfoldable pub validate_cidr_list : String → Bool
  validate_cidr_list cidrs = if cidrs == "" then true else all is_cidr (split b',' cidrs)

  -- ValidateIncludeIPRanges
  unfoldable pub validate_include_ip_ranges : String → Bool
  validate_include_ip_ranges ip_ranges =
      if ip_ranges == "*" then true else validate_cidr_list ip_ranges

  -- validatePortList
  unfoldable pub validate_port_list : String → Bool
  validate_port_list ports = is_valid (parse_ports ports)

  -- ValidateIncludeInboundPorts
  unfoldable pub validate_include_inbound_ports : String → Bool
  validate_include_inbound_ports ports = if ports == "*" then true else validate_port_list ports

  -- validateStatusPort
  unfoldable pub validate_status_port : String → Bool
  validate_status_port port = is_valid (parse_port port)

  -- The test of one annotation in annotationRegistryForMesh; the others there are always valid.
  unfoldable pub valid_for_mesh : String → String → Bool
  valid_for_mesh name value =
      if name == "sidecar.polarismesh.cn/enableCoreDump"
      then validate_bool value
      else if name == "status.sidecar.polarismesh.cn/port"
      then validate_status_port value
      else if name == "traffic.sidecar.polarismesh.cn/includeOutboundIPRanges"
      then validate_include_ip_ranges value
      else if name == "traffic.sidecar.polarismesh.cn/excludeOutboundIPRanges"
      then validate_cidr_list value
      else if name == "traffic.sidecar.polarismesh.cn/includeInboundPorts"
      then validate_include_inbound_ports value
      else if name == "traffic.sidecar.polarismesh.cn/excludeInboundPorts"
      then validate_port_list value
      else if name == "traffic.sidecar.polarismesh.cn/excludeOutboundPorts"
      then validate_port_list value
      else true

  -- validateAnnotations: whether it returns no error
  unfoldable pub validate_annotations : SidecarMode → Dict String → Bool
  validate_annotations sidecar_for_mesh annotations =
      all (λ kv. valid_for_mesh kv.0 kv.1) annotations
  validate_annotations _ annotations = true
