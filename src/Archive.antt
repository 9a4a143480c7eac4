-- ===== src/Archive.antt =====
-- Paths inside of archives, and what is unpacked where (RebornLauncher/Archive.cpp). libarchive and
-- the file system are parameters: an `Archive` is what libarchive reads out of a file, `Disk` what
-- the file system answers, and `normal` what std::filesystem makes of a path.
pub mod Batches
pub mod Safe
pub mod Extract
pub mod Among
pub mod Copies
pub mod Unpacked
use reborn_launcher.Base.{
  ℕ, ◌+◌, ◌*◌, ◌-◌, Bool, true, false, not, ◌&&◌, ◌||◌, List, [], ◌∷◌, ◌++◌, Option, none, some,
  map, ◌==◌, if◌then◌else◌, text_eq, Text, length,
}
use reborn_launcher.Deferred.{to_lower_ascii, is_empty_text}
use reborn_launcher.Paths.{slash, drop_slashes}

-- The loop of `NormalizeArchivePath`. Erasing a leading "./" is erasing the '.' and then the '/'.
unfoldable pub drop_leading : Text → Text
drop_leading [] = []
drop_leading (c ∷ []) = if c == 47 then [] else c ∷ []
drop_leading (c ∷ d ∷ s) =
    let rest = drop_leading (d ∷ s) in if c == 47 || (c == 46 && d == 47) then rest else c ∷ d ∷ s

-- `NormalizeArchivePath`.
unfoldable pub normalize_archive_path : Text → Text
unfolding drop_leading
normalize_archive_path path = drop_leading (map slash path)

has_slash : Text → Bool
has_slash [] = false
has_slash (c ∷ s) = c == 47 || has_slash s

-- `GetArchiveParentPath`: what stands before the last '/'.
unfoldable pub archive_parent_path : Text → Text
unfolding has_slash
archive_parent_path [] = []
archive_parent_path (c ∷ s) =
    let rest = archive_parent_path s in if has_slash s then c ∷ rest else []

-- `GetArchiveFileName`: what stands behind the last '/'.
unfoldable pub archive_file_name : Text → Text
unfolding has_slash
archive_file_name [] = []
archive_file_name (c ∷ s) =
    let rest = archive_file_name s in if has_slash s || c == 47 then rest else c ∷ s

unfoldable pub keep_part : Text → List Text → List Text
keep_part part parts = if is_empty_text part then parts else part ∷ parts

-- The text before the first '/', and the parts behind it.
unfoldable pub cut_parts : Text → Text × List Text
unfolding keep_part
cut_parts [] = ([], [])
cut_parts (c ∷ s) =
    let (part, parts) = cut_parts s in
    if c == 47 then ([], keep_part part parts) else (c ∷ part, parts)

-- `SplitArchivePath`.
unfoldable pub split_archive_path : Text → List Text
unfolding cut_parts keep_part
split_archive_path path = let (part, parts) = cut_parts path in keep_part part parts

joined : List Text → Text
joined [] = []
joined (part ∷ parts) = 47 ∷ part ++ joined parts

-- `JoinArchivePath`.
unfoldable pub join_archive_path : List Text → Text
unfolding joined
join_archive_path [] = []
join_archive_path (part ∷ parts) = part ++ joined parts

-- `DataBlock`.
pub record DataBlock : Type 0 where
  pub file_path : Text
  pub file_offset : ℕ

-- Whether the name ends in ".exe".
ends_in_exe : Text → Bool
ends_in_exe (a ∷ b ∷ c ∷ d ∷ []) = text_eq (a ∷ b ∷ c ∷ d ∷ []) (46 ∷ 101 ∷ 120 ∷ 101 ∷ [])
ends_in_exe (a ∷ b ∷ c ∷ d ∷ e ∷ s) = ends_in_exe (b ∷ c ∷ d ∷ e ∷ s)
ends_in_exe _ = false

unfoldable pub is_exe : DataBlock → Bool
unfolding ends_in_exe
is_exe file = ends_in_exe (to_lower_ascii (archive_file_name file.file_path))

unfoldable pub common_parts : List Text → List Text → List Text
common_parts [] parts = []
common_parts (a ∷ common) [] = []
common_parts (a ∷ common) (b ∷ parts) =
    let rest = common_parts common parts in if text_eq a b then a ∷ rest else []

with_parent : Text → Option (List (List Text)) → Option (List (List Text))
with_parent parent none = none
with_parent parent (some rest) =
    if is_empty_text parent then none else some (split_archive_path parent ∷ rest)

-- The parents of the .exe files; `none`: one of them has no parent, and the function returns.
unfoldable pub exe_parents : List DataBlock → Option (List (List Text))
unfolding with_parent is_exe
exe_parents [] = some []
exe_parents (file ∷ files) =
    let rest = exe_parents files in
    if is_exe file then with_parent (archive_parent_path file.file_path) rest else rest

unfoldable pub common_of : List Text → List (List Text) → List Text
unfolding common_parts
common_of common [] = common
common_of common (parts ∷ others) = common_of (common_parts common parts) others

prefix_of : Option (List (List Text)) → Text
unfolding common_of
prefix_of none = []
prefix_of (some []) = []
prefix_of (some (first ∷ others)) = join_archive_path (common_of first others)

-- `DetermineExeRootPrefix`.
unfoldable pub determine_exe_root_prefix : List DataBlock → Text
unfolding exe_parents prefix_of
determine_exe_root_prefix files = prefix_of (exe_parents files)

-- What stands behind `prefix` and a '/'; `none`: the path does not begin so.
unfoldable pub behind_prefix : Text → Text → Option Text
behind_prefix [] [] = none
behind_prefix [] (c ∷ path) = if c == 47 then some path else none
behind_prefix (p ∷ prefix) [] = none
behind_prefix (p ∷ prefix) (c ∷ path) =
    let rest = behind_prefix prefix path in if p == c then rest else none

or_whole : Text → Option Text → Text
or_whole path none = path
or_whole path (some rest) = rest

-- `StripArchivePrefix`.
unfoldable pub strip_archive_prefix : Text → Text → Text
unfolding behind_prefix or_whole
strip_archive_prefix path prefix =
    if is_empty_text prefix
    then path
    else if text_eq path prefix
    then []
    else or_whole path (behind_prefix prefix path)

-- What std::filesystem makes of a path, in its normal form: its parts in order, and its generic text.
pub record Normal : Type 0 where
  pub empty : Bool
  pub absolute : Bool
  pub parts : List Text
  pub generic : Text

unfoldable pub climbs : List Text → Bool
climbs [] = false
climbs (part ∷ parts) = text_eq part (46 ∷ 46 ∷ []) || climbs parts

unfoldable pub some_filled : Text → Option Text
some_filled s = if is_empty_text s then none else some s

-- `MakeSafeRelativePath`; `none`: it returns false.
unfoldable pub make_safe_relative_path : (Text → Normal) → Text → Option Text
unfolding climbs some_filled drop_slashes
make_safe_relative_path normal input =
    let p = normal input in
    if p.empty || p.absolute
    then none
    else if climbs p.parts
    then none
    else some_filled (drop_slashes p.generic)
