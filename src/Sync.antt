-- ===== src/Sync.antt =====
-- The files that `Manifest.cpp` downloads before the game starts: `IsManifestEntryDifferent`,
-- `DoesLocalFileMatchRemoteSize` and `BuildPrelaunchSyncList`. A std::map is the list of its pairs in
-- order. Times and sizes are the 64 bits of an int64_t.
pub mod Complete
use reborn_launcher.Base.{
  ℕ, suc, ◌+◌, ◌^◌, Bool, true, false, not, ◌&&◌, ◌||◌, List, [], ◌∷◌, ◌++◌, Option, none, some,
  map, ltb, ◌==◌, if◌then◌else◌, text_eq, Text,
}
use reborn_launcher.Deferred.{to_lower_ascii, member, is_empty_text}
use reborn_launcher.Paths.{trim_ascii, slash, manifest_key}

pub record VersionConfig : Type 0 where
  pub page : Text
  pub md5 : Text
  pub time : ℕ
  pub size : ℕ

-- A file on the disk: there is none, or its size, which may not be readable.
pub data Stat : Type 0 where
  missing unreadable : Stat
  sized : ℕ → Stat

is_positive : ℕ → Bool
is_positive n = ltb 0 n && ltb n (2 ^ 63)

size_matches : ℕ → Stat → Bool
unfolding is_positive
size_matches size missing = false
size_matches size unreadable = not (is_positive size)
size_matches size (sized n) = not (is_positive size) || n == size

-- `DoesLocalFileMatchRemoteSize`, with `BuildLocalFilePathFromManifestPath`.
unfoldable pub does_local_file_match_remote_size :
    (Text → Option Text) → (Text → Stat) → Text → VersionConfig → Bool
unfolding size_matches
does_local_file_match_remote_size normal disk path remote =
    let key = manifest_key normal path in
    if is_empty_text key then false else size_matches remote.size (disk (map slash key))

-- `IsManifestEntryDifferent`.
unfoldable pub is_manifest_entry_different : VersionConfig → VersionConfig → Bool
is_manifest_entry_different here there =
    let here_md5 = to_lower_ascii (trim_ascii here.md5) in
    let there_md5 = to_lower_ascii (trim_ascii there.md5) in
    if not (is_empty_text here_md5) && not (is_empty_text there_md5)
    then not (text_eq here_md5 there_md5)
    else if not (is_empty_text here_md5) || not (is_empty_text there_md5)
    then true
    else not (here.time == there.time) || not (here.size == there.size)

-- What `BuildManifestLookupByNormalizedKey` has for a key: the last entry with it.
unfoldable pub lookup :
    (Text → Option Text) → Text → List (Text × VersionConfig) → Option VersionConfig
lookup normal key [] = none
lookup normal key ((path, cfg) ∷ files) =
    let later = lookup normal key files in
    elim later [
      | some found ↦ some found
      | none ↦ if text_eq (manifest_key normal path) key then some cfg else none
    ]

differs_from : Option VersionConfig → Bool → VersionConfig → Bool
unfolding is_manifest_entry_different
differs_from none matches remote = true
differs_from (some here) matches remote = not matches || is_manifest_entry_different here remote

-- `needsSync` for a remote file; `baseline`: the local manifest, if there is one.
unfoldable pub needs_sync :
    (Text → Option Text)
    → (Text → Stat)
    → Option (List (Text × VersionConfig))
    → Text
    → VersionConfig
    → Bool
unfolding differs_from lookup
needs_sync normal disk none path remote =
    not (does_local_file_match_remote_size normal disk path remote)
needs_sync normal disk (some here) path remote =
    differs_from (lookup normal (manifest_key normal path) here)
      (does_local_file_match_remote_size normal disk path remote) remote

-- The variables of the loop.
pub record Built : Type 0 where
  pub sync_list : List Text
  pub inserted : List Text
  pub manifest_diff_count : ℕ
  pub size_validation_diff_count : ℕ

count : Bool → Bool → ℕ → ℕ
count now needs n = if now && needs then suc n else n

is_some : Option (List (Text × VersionConfig)) → Bool
is_some none = false
is_some (some _) = true

-- `needsSync && insertedKeys.insert(key).second`, and what hangs on it.
unfoldable pub push_path : Bool → Text → Text → Built → Built
push_path needs path key b =
    if needs && not (member key b.inserted)
    then record b { sync_list = b.sync_list ++ path ∷ []; inserted = key ∷ b.inserted }
    else b

unfoldable pub count_diffs : Bool → Bool → Built → Built
unfolding count
count_diffs baseline needs b = record b {
  manifest_diff_count = count baseline needs b.manifest_diff_count;
  size_validation_diff_count = count (not baseline) needs b.size_validation_diff_count;
}

-- One round of the loop, and the loop.
unfoldable pub build_step :
    (Text → Option Text)
    → (Text → Stat)
    → Option (List (Text × VersionConfig))
    → Text
    → VersionConfig
    → Built
    → Built
unfolding push_path count_diffs is_some
build_step normal disk baseline path remote b =
    let key = manifest_key normal path in
    let needs = needs_sync normal disk baseline path remote in
    if is_empty_text key
    then b
    else push_path needs path key (count_diffs (is_some baseline) needs b)

unfoldable pub build_all :
    (Text → Option Text)
    → (Text → Stat)
    → Option (List (Text × VersionConfig))
    → List (Text × VersionConfig)
    → Built
    → Built
unfolding build_step
build_all normal disk baseline [] b = b
build_all normal disk baseline ((path, remote) ∷ files) b =
    build_all normal disk baseline files (build_step normal disk baseline path remote b)

-- `BuildPrelaunchSyncList`: the list and the two counters.
unfoldable pub build_prelaunch_sync_list :
    (Text → Option Text)
    → (Text → Stat)
    → Option (List (Text × VersionConfig))
    → List (Text × VersionConfig)
    → Built
unfolding build_all
build_prelaunch_sync_list normal disk baseline remote =
    build_all normal disk baseline remote (record {
      sync_list = [];
      inserted = [];
      manifest_diff_count = 0;
      size_validation_diff_count = 0;
    })
