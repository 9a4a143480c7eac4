-- ===== src/Tests/Manifests.antt =====
-- Runs on local-only files and manifests (Manifest.cpp). Paths of plain names stand for themselves.
use reborn_launcher.Base.{
  ℕ, ◌≡◌, refl, true, false, List, [], ◌∷◌, Option, some, none, All, Text, text_eq, if◌then◌else◌,
  get_elem?,
}
use reborn_launcher.Deferred.{is_empty_text, member, lower_char, back_slash}
use reborn_launcher.Deferred.Keys.{IsDistinct}
use reborn_launcher.Paths.{
  slash, manifest_key, looked_up_key, local_only_files, is_runtime_update_skipped,
}
use reborn_launcher.Paths.LocalOnly.{has_slash, directory_never_skipped, bare_name_skipped}
use reborn_launcher.Sync.{
  VersionConfig, Stat, missing, sized, needs_sync, does_local_file_match_remote_size,
  build_prelaunch_sync_list,
}
use reborn_launcher.Sync.Complete.{
  IsListed, IsWanted, path_keys, build_prelaunch_sync_list_complete,
}

abbrev as_written : Text → Option Text
as_written s = some s

-- "a/B" and "B".
abbrev nested : Text
nested = 97 ∷ 47 ∷ 66 ∷ []

abbrev bare : Text
bare = 66 ∷ []

abbrev listed : List (Option Text)
listed = some nested ∷ none ∷ some bare ∷ []

nested_key : looked_up_key as_written nested ≡ some (97 ∷ 47 ∷ 98 ∷ [])
unfolding looked_up_key lower_char
nested_key = refl

bare_key : looked_up_key as_written bare ≡ some (98 ∷ [])
unfolding looked_up_key lower_char
bare_key = refl

directory_never_skipped_example :
    is_runtime_update_skipped as_written (local_only_files as_written listed) nested ≡ some false
unfolding has_slash
directory_never_skipped_example =
    directory_never_skipped as_written listed nested (97 ∷ 47 ∷ 98 ∷ []) nested_key refl

bare_name_skipped_example :
    is_runtime_update_skipped as_written (local_only_files as_written listed) bare ≡ some true
unfolding has_slash is_empty_text
bare_name_skipped_example =
    bare_name_skipped as_written listed 2 bare bare (98 ∷ []) refl bare_key bare_key refl refl

abbrev version : ℕ → VersionConfig
version n = record { page = []; md5 = []; time = 1; size = n }

abbrev remote_files : List (Text × VersionConfig)
remote_files = (nested, version 4) ∷ (bare, version 5) ∷ []

-- Only "B" is there, with its size.
abbrev bare_is_there : Text → Stat
bare_is_there path = if text_eq path (98 ∷ []) then sized 5 else missing

nested_is_listed :
    (build_prelaunch_sync_list as_written bare_is_there none remote_files).sync_list ≡ nested ∷ []
unfolding build_prelaunch_sync_list is_empty_text manifest_key needs_sync
    does_local_file_match_remote_size text_eq lower_char back_slash slash member
nested_is_listed = refl

build_prelaunch_sync_list_complete_example :
    let paths = (build_prelaunch_sync_list as_written bare_is_there none remote_files).sync_list in
    All (IsListed as_written bare_is_there none remote_files) paths
    × IsDistinct (path_keys as_written bare_is_there none paths)
    × ((i : ℕ) (path : Text) (cfg : VersionConfig)
        → get_elem? remote_files i ≡ some (path, cfg)
        → IsWanted as_written bare_is_there none path cfg
        → member (manifest_key as_written path) (path_keys as_written bare_is_there none paths)
          ≡ true)
build_prelaunch_sync_list_complete_example =
    build_prelaunch_sync_list_complete as_written bare_is_there none remote_files
