-- ===== src/Inject/Patch.antt =====
-- pkg/inject/pkg/kube/inject/apply/base/patch.go: the operations of a JSON patch that take the items
-- of an earlier injection out of a list of a pod and put new ones in.
pub mod Lists
use polaris_controller.Common.{
  ℕ, suc, String, Bool, true, false, ◌==◌, if◌then◌else◌, Option, none, some, List, [], ◌∷◌, ◌++◌,
  map, any, not, ◌&&◌,
}
use polaris_controller.Util.Text.{◌⋯◌, itoa}
use polaris_controller.Inject.Objects.{VolumeMount, Container, Volume, SecretReference}

pub data OperationKind : Type 0 where
  remove add replace : OperationKind

-- The last token of the path: the list itself, an index of it, or "-", its end.
pub data Target : Type 0 where
  whole : Target
  index : ℕ → Target
  end : Target

pub data Value (A : Type 0) : Type 0 where
  nothing : Value A
  item : A → Value A
  items : List A → Value A

-- Rfc6902PatchOperation on a list of `A`
pub record Operation (A : Type 0) : Type 0 where
  pub op : OperationKind
  pub base_path : String
  pub target : Target
  pub value : Value A

-- The text of the path.
unfoldable pub path : {A : Type 0} → Operation A → String
path o = elim o.target [
  | whole ↦ o.base_path
  | index i ↦ o.base_path ⋯ "/" ⋯ itoa i
  | end ↦ o.base_path ⋯ "/-"
]

module _ {A : Type 0} (name : A → String) where
  -- names[item.Name]
  abbrev pub is_named : List A → A → Bool
  is_named removed x = any (λ r. name r == name x) removed

  -- The loop over the items from index `i` on, backwards: an operation does not change the indices
  -- of those after it.
  unfoldable pub remove_from : List A → String → ℕ → List A → List (Operation A)
  remove_from removed base_path i [] = []
  remove_from removed base_path i (x ∷ xs) =
      remove_from removed base_path (suc i) xs
      ++ (if is_named removed x
          then record { op = remove; base_path = base_path; target = index i; value = nothing } ∷ []
          else [])

  -- removeContainers, removeVolumes and removeImagePullSecrets
  unfoldable pub remove_items : List A → List A → String → List (Operation A)
  remove_items source removed base_path = remove_from removed base_path 0 source

abbrev pub is_empty {ℓ} : {A : Type ℓ} → List A → Bool
is_empty [] = true
is_empty (x ∷ xs) = false

-- The loop over the added items. The first one of an empty list makes the list.
unfoldable pub add_each : {A : Type 0} → String → Bool → List A → List (Operation A)
add_each base_path first [] = []
add_each base_path true (x ∷ xs) =
    record { op = add; base_path = base_path; target = whole; value = items (x ∷ []) }
    ∷ add_each base_path false xs
add_each base_path false (x ∷ xs) =
    record { op = add; base_path = base_path; target = end; value = item x }
    ∷ add_each base_path false xs

-- addVolume and addImagePullSecrets
unfoldable pub add_items : {A : Type 0} → List A → List A → String → List (Operation A)
add_items source added base_path = add_each base_path (is_empty source) added

abbrev pub service_account_path : String
service_account_path = "/var/run/secrets/kubernetes.io/serviceaccount"

abbrev pub proxy_container_name : String
proxy_container_name = "polaris-proxy"

-- The last mount of the service account's secret, in the order of the containers.
account_mount_in : Option VolumeMount → List VolumeMount → Option VolumeMount
account_mount_in found [] = found
account_mount_in found (m ∷ mounts) =
    account_mount_in (if m.mount_path == service_account_path then some m else found) mounts

unfoldable pub account_mount : Option VolumeMount → List Container → Option VolumeMount
unfolding account_mount_in
account_mount found [] = found
account_mount found (c ∷ containers) =
    account_mount (account_mount_in found c.volume_mounts) containers

-- The proxy gets the mount, if it has a name.
unfoldable pub with_account_mount : Option VolumeMount → Container → Container
with_account_mount none c = c
with_account_mount (some m) c =
    if c.name == proxy_container_name && not (m.name == "")
    then record c { volume_mounts = c.volume_mounts ++ m ∷ [] }
    else c

-- addContainers
unfoldable pub add_containers :
    List Container → List Container → String → List (Operation Container)
add_containers target added base_path =
    add_each base_path (is_empty target)
      (map (with_account_mount (account_mount none target)) added)

abbrev pub container_name : Container → String
container_name c = c.name

abbrev pub volume_name : Volume → String
volume_name v = v.name

abbrev pub secret_name : SecretReference → String
secret_name s = s.name
