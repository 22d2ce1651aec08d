-- ===== src/Inject/TemplateFuncs.antt =====
-- pkg/inject/pkg/kube/inject/template_funcs.go: the functions on texts, ports and annotations that a
-- template may call. Those that only call an encoder or a template are left out.
use polaris_controller.Common.{
  ℕ, zero, suc, String, Bool, true, false, not, ◌==◌, ◌||◌, any, if◌then◌else◌, Option, none, some,
  List, [], ◌∷◌, ◌++◌,
}
use polaris_controller.Common.Dict.{Dict, lookup}
use polaris_controller.Util.Text.{◌⋯◌, itoa}
use polaris_controller.Util.Split.{split, trim_space}
use polaris_controller.Inject.Objects.{Container, ContainerPort}
use polaris_controller.Inject.Patch.{proxy_container_name}

-- strings.Join
unfoldable pub join : String → List String → String
join separator [] = ""
join separator (w ∷ []) = w
join separator (w ∷ v ∷ words) = w ⋯ separator ⋯ join separator (v ∷ words)

abbrev pub is_there : Option String → Bool
is_there none = false
is_there (some value) = true

unfoldable pub isset : Dict String → String → Bool
isset m key = is_there (lookup key m)

trimmed_ports : List String → List String
trimmed_ports [] = []
trimmed_ports (port ∷ ports) =
    let rest = trimmed_ports ports in if trim_space port == "" then rest else trim_space port ∷ rest

-- excludeInboundPort, with the port as text: a port is compared before its spaces are taken off.
unfoldable pub exclude_inbound_port : String → String → String
unfolding trimmed_ports
exclude_inbound_port port excluded_inbound_ports =
    let port_str = trim_space port in
    let ports = split b',' excluded_inbound_ports in
    if port_str == "" || port_str == "0"
    then excluded_inbound_ports
    else if any (λ p. p == port_str) ports
    then excluded_inbound_ports
    else join "," (trimmed_ports ports ++ port_str ∷ [])

not_none : Option String → Bool
not_none none = false
not_none (some v) = not (v == "none")

-- openTlsMode
unfoldable pub open_tls_mode : Dict String → String → Bool
unfolding not_none
open_tls_mode m key = not_none (lookup key m)

-- getPortsForContainer
unfoldable pub get_ports_for_container : List ContainerPort → List String
get_ports_for_container [] = []
get_ports_for_container (p ∷ ports) =
    let rest = get_ports_for_container ports in
    if p.protocol == "UDP" || p.protocol == "SCTP" then rest else itoa p.container_port ∷ rest

ports_of : (Container → Bool) → List Container → List String
ports_of should_include_ports [] = []
ports_of should_include_ports (c ∷ containers) =
    let rest = ports_of should_include_ports containers in
    if should_include_ports c then get_ports_for_container c.ports ++ rest else rest

-- getContainerPorts
unfoldable pub get_container_ports : (Container → Bool) → List Container → String
unfolding ports_of
get_container_ports should_include_ports containers =
    join "," (ports_of should_include_ports containers)

-- applicationPorts
unfoldable pub application_ports : List Container → String
application_ports = get_container_ports (λ c. not (c.name == proxy_container_name))

-- includeInboundPorts
unfoldable pub include_inbound_ports : List Container → String
include_inbound_ports = get_container_ports (λ c. true)

abbrev pub spaces_then : ℕ → String → String
spaces_then zero s = s
spaces_then (suc n) s = " " ⋯ spaces_then n s

indent_lines : ℕ → List String → List String
indent_lines spaces [] = []
indent_lines spaces (line ∷ rest) = spaces_then spaces line ∷ indent_lines spaces rest

indent_after_first : ℕ → List String → List String
unfolding indent_lines
indent_after_first spaces [] = []
indent_after_first spaces (line ∷ rest) = line ∷ indent_lines spaces rest

-- indent: every line but the first
unfoldable pub indent : ℕ → String → String
unfolding indent_after_first
indent spaces source = join "\n" (indent_after_first spaces (split 10 source))

value_or : Option String → String → String
value_or none default_value = default_value
value_or (some value) default_value = value

-- getAnnotation, with the default as text
unfoldable pub get_annotation : Dict String → String → String → String
unfolding value_or
get_annotation annotations name default_value = value_or (lookup name annotations) default_value

-- env, with the environment as a function
unfoldable pub env : (String → String) → String → String → String
env getenv key def = if getenv key == "" then def else getenv key
