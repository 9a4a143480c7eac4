-- ===== src/Paths.antt =====
-- The keys of local paths: `TrimAscii` of RebornLauncher/NetUtils.cpp, both functions named
-- `NormalizeLocalOnlyPathKey` (Manifest.cpp, LauncherUpdateCoordinator.cpp), `NormalizeManifestPathKey`,
-- and the list of files that only exist locally. `normal` stands for what std::filesystem makes of a
-- path, `u8path(s).lexically_normal().generic_string()`; `none`: it throws.
pub mod LocalOnly
use reborn_launcher.Base.{
  ℕ, Bool, true, false, not, ◌&&◌, ◌||◌, List, [], ◌∷◌, ◌++◌, Option, none, some, map, leb, ◌==◌,
  if◌then◌else◌, Text,
}
use reborn_launcher.Deferred.{to_lower_ascii, back_slash, member, is_empty_text}

-- `std::isspace` in the "C" locale.
unfoldable pub is_space : ℕ → Bool
is_space c = c == 32 || (leb 9 c && leb c 13)

unfoldable pub drop_spaces : Text → Text
unfolding is_space
drop_spaces [] = []
drop_spaces (c ∷ s) = let rest = drop_spaces s in if is_space c then rest else c ∷ s

unfoldable pub drop_last_spaces : Text → Text
unfolding is_space is_empty_text
drop_last_spaces [] = []
drop_last_spaces (c ∷ s) =
    let rest = drop_last_spaces s in if is_space c && is_empty_text rest then [] else c ∷ rest

unfoldable pub trim_ascii : Text → Text
unfolding drop_spaces drop_last_spaces
trim_ascii s = drop_last_spaces (drop_spaces s)

unfoldable pub slash : ℕ → ℕ
slash c = if c == 92 then 47 else c

-- `while (value.rfind("./", 0) == 0) value.erase(0, 2)`.
drop_dots : Text → Text
drop_dots (c ∷ d ∷ s) = let rest = drop_dots s in if c == 46 && d == 47 then rest else c ∷ d ∷ s
drop_dots s = s

-- `while (!value.empty() && value.front() == '/') value.erase(value.begin())`.
unfoldable pub drop_slashes : Text → Text
drop_slashes [] = []
drop_slashes (c ∷ s) = let rest = drop_slashes s in if c == 47 then rest else c ∷ s

unfoldable pub strip : Text → Text
unfolding drop_dots drop_slashes
strip s = drop_slashes (drop_dots s)

-- The end of each of the functions, by what std::filesystem makes of the path.
unfoldable pub stored_of : Option Text → Text
unfolding to_lower_ascii strip back_slash
stored_of none = []
stored_of (some s) = to_lower_ascii (map back_slash (strip s))

unfoldable pub looked_up_of : Option Text → Option Text
unfolding to_lower_ascii strip
looked_up_of none = none
looked_up_of (some s) = some (to_lower_ascii (strip s))

-- `NormalizeLocalOnlyPathKey` of Manifest.cpp: the key that is kept.
unfoldable pub stored_key : (Text → Option Text) → Text → Text
unfolding trim_ascii strip slash stored_of
stored_key normal value =
    let s = trim_ascii value in
    if is_empty_text s then [] else stored_of (normal (strip (map slash s)))

-- `NormalizeLocalOnlyPathKey` of LauncherUpdateCoordinator.cpp: the key that is looked for. It lets
-- the exception through (`none`).
unfoldable pub looked_up_key : (Text → Option Text) → Text → Option Text
unfolding trim_ascii strip slash looked_up_of
looked_up_key normal value =
    let s = trim_ascii value in
    if is_empty_text s then some [] else looked_up_of (normal (strip (map slash s)))

-- `NormalizeManifestPathKey`.
unfoldable pub manifest_key : (Text → Option Text) → Text → Text
unfolding trim_ascii strip slash stored_of
manifest_key normal path =
    let s = trim_ascii path in
    if is_empty_text s
    then []
    else if is_empty_text (strip (map slash s))
    then []
    else stored_of (normal (strip (map slash s)))

unfoldable pub keep_key : Text → List Text → List Text
keep_key k ks = if is_empty_text k then ks else k ∷ ks

-- The set that `FetchBootstrapConfig` makes of "local_only_files" (`none`: not a string).
unfoldable pub local_only_files : (Text → Option Text) → List (Option Text) → List Text
unfolding stored_key keep_key
local_only_files normal [] = []
local_only_files normal (none ∷ items) = local_only_files normal items
local_only_files normal (some item ∷ items) =
    keep_key (stored_key normal item) (local_only_files normal items)

unfoldable pub skipped_of : List Text → Option Text → Option Bool
unfolding is_empty_text member
skipped_of files none = none
skipped_of files (some k) = some (not (is_empty_text k) && member k files)

-- `IsRuntimeUpdateSkipped`.
unfoldable pub is_runtime_update_skipped : (Text → Option Text) → List Text → Text → Option Bool
unfolding looked_up_key skipped_of
is_runtime_update_skipped normal files path = skipped_of files (looked_up_key normal path)
