-- ===== src/Hook.antt =====
-- The hook of the games' file checks (CryptoLoader/dllmain.cpp). What Windows, std::filesystem and the
-- launcher answer during one check is a `Check`. Ticks are 32-bit, and 0 for a key means that no
-- request was made for it.
pub mod Cache
pub mod Cooldown
pub mod Faithful
pub mod Equal
use reborn_launcher.Base.{
  ℕ, ◌+◌, ◌-◌, ◌/◌, ◌%◌, ◌^◌, Bool, true, false, not, ◌&&◌, ◌||◌, List, [], ◌∷◌, ◌++◌, Option, none,
  some, ◌==◌, ltb, leb, if◌then◌else◌, text_eq, Text,
}
use reborn_launcher.Deferred.{is_empty_text}
use reborn_launcher.P2p.{begins_with}
use reborn_launcher.Mapping.{Table, to_upper_ascii, try_get_expected_md5, refresh_version_map}

-- A character that is a lower-case letter once bit 5 is set.
is_letter : ℕ → ℕ → Bool
is_letter letter c = c == letter || c + 32 == letter

-- `EndsWithImgExtension`.
unfoldable pub ends_with_img_extension : Text → Bool
unfolding is_letter
ends_with_img_extension (a ∷ b ∷ c ∷ d ∷ []) =
    a == 46 && is_letter 105 b && is_letter 109 c && is_letter 103 d
ends_with_img_extension (a ∷ b ∷ c ∷ d ∷ e ∷ s) = ends_with_img_extension (b ∷ c ∷ d ∷ e ∷ s)
ends_with_img_extension _ = false

-- `g_currentDirectoryKey`: without a '\' at its end.
unfoldable pub directory_key : Text → Text
directory_key [] = []
directory_key (c ∷ []) = if c == 92 then [] else c ∷ []
directory_key (c ∷ d ∷ s) = c ∷ directory_key (d ∷ s)

-- `IsPathInCurrentDirectoryKey`, of the normal key of the current directory.
unfoldable pub is_in_current_directory : Text → Text → Bool
unfolding directory_key
is_in_current_directory current key =
    let directory = directory_key current in
    not (is_empty_text key)
    && not (is_empty_text directory)
    && (text_eq key directory || begins_with (directory ++ 92 ∷ []) key)

-- `FileMetadataSnapshot`.
pub record Snapshot : Type 0 where
  pub exists : Bool
  pub file_size : ℕ
  pub write_low : ℕ
  pub write_high : ℕ

-- `FileMetadataCacheEntry`.
pub record CacheEntry : Type 0 where
  pub snapshot : Snapshot
  pub expected_md5 : Text
  pub md5_match : Bool

-- `g_mapFiles`, `g_fileCheckCache` and `g_downloadRequestTicks`.
pub record Hook : Type 0 where
  pub files : Table
  pub cache : Text → Option CacheEntry
  pub ticks : Text → ℕ

-- The answers during one check: the normal keys of the current directory and the path (`none`:
-- something throws), the page, whether the file is there, its metadata (`none`: an error), the hash
-- of its content (empty: it cannot be read), the bytes of the shared table, the tick, and whether the
-- launcher answers a request with 200.
pub record Check : Type 0 where
  pub directory : Text
  pub key : Option Text
  pub page : Text
  pub file_exists : Bool
  pub metadata : Option Snapshot
  pub local_md5 : Text
  pub view : Option Text
  pub now : ℕ
  pub launcher_ok : Bool

unfoldable pub same_bool : Bool → Bool → Bool
same_bool true b = b
same_bool false b = not b

-- `FileTimeEquals`, with the other fields.
unfoldable pub same_snapshot : Snapshot → Snapshot → Bool
unfolding same_bool
same_snapshot a b =
    same_bool a.exists b.exists
    && a.file_size == b.file_size
    && a.write_low == b.write_low
    && a.write_high == b.write_high

-- `TryGetCachedMd5Result`: whether a download is needed; `none`: no entry fits.
unfoldable pub try_get_cached : Text → Snapshot → Option CacheEntry → Option Bool
unfolding same_snapshot
try_get_cached expected metadata none = none
try_get_cached expected metadata (some entry) =
    if text_eq entry.expected_md5 expected && same_snapshot entry.snapshot metadata
    then some (not entry.md5_match)
    else none

unfoldable pub put_at {ℓ} : {A : Type ℓ} → Text → A → (Text → A) → Text → A
put_at key value f j = if text_eq key j then value else f j

-- `UpdateCachedMd5Result`.
unfoldable pub update_cached : Text → Text → Snapshot → Bool → Hook → Hook
unfolding put_at
update_cached key expected metadata md5_match hook = record hook {
  cache =
      put_at key
        (some (record { snapshot = metadata; expected_md5 = expected; md5_match = md5_match }))
        hook.cache;
}

-- `ShouldRequestDownloadNow` at tick `now`.
unfoldable pub should_request_now : Text → ℕ → Hook → Bool
should_request_now key now hook =
    not (not (hook.ticks key == 0) && ltb ((now + 2 ^ 32 - hook.ticks key) % 2 ^ 32) 3000)

unfoldable pub note_request : Text → ℕ → Hook → Hook
unfolding put_at
note_request key now hook = record hook { ticks = put_at key now hook.ticks }

-- A request, where the cooldown allows it; and whether the launcher did the download.
unfoldable pub request : Check → Text → Hook → Hook × Bool
unfolding should_request_now note_request
request check key hook =
    if should_request_now key check.now hook
    then (note_request key check.now hook, check.launcher_ok)
    else (hook, false)

unfoldable pub request_if : Bool → Check → Text → Hook → Hook × Bool
unfolding request
request_if needed check key hook = if needed then request check key hook else (hook, false)

-- The hash is computed, and kept with the metadata.
unfoldable pub check_content : Check → Text → Text → Hook → Hook × Bool
unfolding request_if update_cached
check_content check key expected hook =
    let local = to_upper_ascii check.local_md5 in
    let matches = text_eq local expected in
    if is_empty_text local then (hook, false) else elim check.metadata [
      | none ↦ request_if (not matches) check key hook
      | some metadata ↦
          request_if (not matches) check key (update_cached key expected metadata matches hook)
    ]

unfoldable pub check_cached : Check → Text → Text → Hook → Option Bool → Hook × Bool
unfolding check_content request_if
check_cached check key expected hook none = check_content check key expected hook
check_cached check key expected hook (some needed) = request_if needed check key hook

unfoldable pub check_existing : Check → Text → Text → Hook → Option Snapshot → Hook × Bool
unfolding check_cached try_get_cached
check_existing check key expected hook none = check_content check key expected hook
check_existing check key expected hook (some metadata) =
    if not metadata.exists
    then request check key hook
    else check_cached check key expected hook (try_get_cached expected metadata (hook.cache key))

unfoldable pub check_expected : Check → Text → Hook → Option Text → Hook × Bool
unfolding check_existing
check_expected check key hook none = (hook, false)
check_expected check key hook (some expected) =
    if is_empty_text check.page
    then (hook, false)
    else if not check.file_exists
    then request check key hook
    else check_existing check key expected hook check.metadata

-- The table is read again where it does not have the key.
unfoldable pub refreshed : (Text → Text) → Check → Text → Hook → Option Text → Hook × Option Text
refreshed normal check key hook (some expected) = (hook, some expected)
refreshed normal check key hook none =
    let (files, fresh) = refresh_version_map normal check.view hook.files in
    (record hook { files = files }, if fresh then try_get_expected_md5 key files else none)

unfoldable pub check_key : (Text → Text) → Check → Hook → Option Text → Hook × Bool
unfolding check_expected refreshed is_in_current_directory
check_key normal check hook none = (hook, false)
check_key normal check hook (some key) =
    let (known, expected) = refreshed normal check key hook (try_get_expected_md5 key hook.files) in
    if is_in_current_directory check.directory key
    then check_expected check key known expected
    else (hook, false)

-- `HandleHookedFileCheck`: the state after it, and whether it returns SyncRequested.
unfoldable pub handle_hooked_file_check : (Text → Text) → Text → Check → Hook → Hook × Bool
unfolding check_key
handle_hooked_file_check normal name check hook =
    if is_empty_text name then (hook, false) else check_key normal check hook check.key

-- `HookedGetFileAttributesA`, of what the original returns at first and, where it is asked again, then.
-- A file is there where the attributes are not INVALID_FILE_ATTRIBUTES and not a directory's.
unfoldable pub is_file : ℕ → Bool
is_file attributes = not (attributes == 2 ^ 32 - 1) && attributes / 16 % 2 == 0

unfoldable pub hooked_get_file_attributes : (Text → Text) → Text → ℕ → ℕ → Check → Hook → Hook × ℕ
unfolding handle_hooked_file_check ends_with_img_extension is_file
hooked_get_file_attributes normal name first second check hook =
    let asked = record check { file_exists = is_file first } in
    let (after, synced) = handle_hooked_file_check normal name asked hook in
    if ends_with_img_extension name
    then (after, if synced then second else first)
    else (hook, first)
