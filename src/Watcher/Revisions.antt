-- ===== src/Watcher/Revisions.antt =====
-- The revisions of the files that PolarisConfigWatcher keeps.
use polaris_controller.Common.{ℕ, String, leb, if◌then◌else◌, Option, none, some}
use polaris_controller.Common.Dict.{Dict, lookup}
use polaris_controller.Watcher.{FileReference, Watcher}

-- The revision of a file that is kept.
abbrev pub revision_of : Option FileReference → Option ℕ
revision_of none = none
revision_of (some r) = some r.revision

abbrev in_group : Option (Dict FileReference) → String → Option ℕ
in_group none file = none
in_group (some files) file = revision_of (lookup file files)

abbrev in_namespace : Option (Dict (Dict FileReference)) → String → String → Option ℕ
in_namespace none group file = none
in_namespace (some bucket) group file = in_group (lookup group bucket) file

abbrev pub kept_revision : String → String → String → Watcher → Option ℕ
kept_revision namespace group file w = in_namespace (lookup namespace w.need_sync_files) group file

abbrev pub or_zero : Option ℕ → ℕ
or_zero none = 0
or_zero (some n) = n

abbrev pub larger : ℕ → ℕ → ℕ
larger m n = if leb m n then n else m
