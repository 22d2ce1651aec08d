-- ===== src/Inject/Annotations.antt =====
-- pkg/inject/pkg/kube/inject/webhook.go: updateAnnotation and addLabels, which patch the annotations
-- and the labels of a pod in the order of their keys.
pub mod Escapes
pub mod Merged
use Prim.Native.Char.{code}
use polaris_controller.Common.{
  String, Bool, true, false, ◌==◌, eqb, ltb, if◌then◌else◌, Option, none, some, List, [], ◌∷◌, ◌++◌,
  map,
}
use polaris_controller.Common.Dict.{Dict, index}
use polaris_controller.Util.Text.{◌⋯◌}
use polaris_controller.Inject.Patch.{OperationKind, add, replace}

-- The order of Go's strings, which on UTF-8 is that of the code points.
unfoldable pub string_leb : String → String → Bool
string_leb String.[] t = true
string_leb (String.◌∷◌ c s) String.[] = false
string_leb (String.◌∷◌ c s) (String.◌∷◌ d t) =
    let rest = string_leb s t in
    if ltb (code c) (code d) then true else if eqb (code c) (code d) then rest else false

insert_key : String → List String → List String
insert_key k [] = k ∷ []
insert_key k (j ∷ keys) =
    let later = insert_key k keys in if string_leb k j then k ∷ j ∷ keys else j ∷ later

-- sort.Strings
unfoldable pub sort_keys : List String → List String
unfolding insert_key
sort_keys [] = []
sort_keys (k ∷ keys) = insert_key k (sort_keys keys)

-- Replacing the characters of a JSON pointer that have a meaning: "~" first, then "/".
replace_tilde : String → String
replace_tilde String.[] = ""
replace_tilde (String.◌∷◌ c s) =
    if eqb (code c) b'~'
    then String.◌∷◌ "~" (String.◌∷◌ "0" (replace_tilde s))
    else String.◌∷◌ c (replace_tilde s)

replace_slash : String → String
replace_slash String.[] = ""
replace_slash (String.◌∷◌ c s) =
    if eqb (code c) b'/'
    then String.◌∷◌ "~" (String.◌∷◌ "1" (replace_slash s))
    else String.◌∷◌ c (replace_slash s)

-- escapeJSONPointerValue
unfoldable pub escape_json_pointer_value : String → String
unfolding replace_tilde replace_slash
escape_json_pointer_value s = replace_slash (replace_tilde s)

-- An operation on a member of the metadata that is a map: the whole map with one entry, or the
-- entry of a key.
pub data MapOperation : Type 0 where
  add_map : (key value : String) → MapOperation
  set_entry : OperationKind → (key value : String) → MapOperation

-- The text of its path, with the path of the map.
unfoldable pub map_path : String → MapOperation → String
map_path base (add_map key value) = base
map_path base (set_entry op key value) = base ⋯ "/" ⋯ escape_json_pointer_value key

abbrev pub keys_of : Dict String → List String
keys_of = map (λ kv. kv.0)

-- The operation for one key, with the annotations known so far, and those afterwards.
annotate_key : Option (Dict String) → String → String → Option (Dict String) × List MapOperation
annotate_key none key value = (some [], add_map key value ∷ [])
annotate_key (some target) key value =
    (some target, set_entry (if index key target == "" then add else replace) key value ∷ [])

annotate_each : Option (Dict String) → Dict String → List String → List MapOperation
unfolding annotate_key
annotate_each target added [] = []
annotate_each target added (key ∷ keys) =
    if index key added == ""
    then annotate_each target added keys
    else let (target', patch) = annotate_key target key (index key added) in
      patch ++ annotate_each target' added keys

unfoldable pub update_annotation : Option (Dict String) → Dict String → List MapOperation
unfolding annotate_each
update_annotation target added = annotate_each target added (sort_keys (keys_of added))

-- The operation for one label, which keeps the value of a label that is there.
label_key : Option (Dict String) → String → String → Option (Dict String) × List MapOperation
label_key none key value = (some [], add_map key value ∷ [])
label_key (some target) key value =
    (some target, if index key target == "" then set_entry add key value ∷ [] else [])

label_each : Option (Dict String) → Dict String → List String → List MapOperation
unfolding label_key
label_each target added [] = []
label_each target added (key ∷ keys) =
    if index key added == ""
    then label_each target added keys
    else let (target', patch) = label_key target key (index key added) in
      patch ++ label_each target' added keys

unfoldable pub add_labels : Option (Dict String) → Dict String → List MapOperation
unfolding label_each
add_labels target added = label_each target added (sort_keys (keys_of added))
