-- ===== src/Mapping.antt =====
-- The table of file hashes that the launcher publishes in shared memory (`WriteVersionToMapping` of
-- RebornLauncher/Mapping.cpp) and the games' hook reads (CryptoLoader/dllmain.cpp). `full_key` stands
-- for what std::filesystem makes of a page below the current directory, as `NormalizeMappingPathKey`
-- sees it (`none`: it throws), `normal` for `NormalizePathKey` of the hook.
pub mod Store
pub mod Carried
pub mod Mapped
pub mod Published
use reborn_launcher.Base.{
  ℕ, ◌+◌, ◌-◌, ◌*◌, ◌^◌, Bool, true, false, not, ◌&&◌, ◌||◌, List, [], ◌∷◌, ◌++◌, Option, none,
  some, map, ◌==◌, ltb, leb, if◌then◌else◌, text_eq, Text, length,
}
use reborn_launcher.Deferred.{is_empty_text}
use reborn_launcher.Paths.{trim_ascii}
use reborn_launcher.Lines.{getlines}

unfoldable pub upper_char : ℕ → ℕ
upper_char c = if leb 97 c && leb c 122 then c - 32 else c

-- `GetUpperAscii` of Mapping.cpp and `ToUpperAscii` of dllmain.cpp.
unfoldable pub to_upper_ascii : Text → Text
unfolding upper_char
to_upper_ascii s = map upper_char s

-- A std::map of texts, and an object of jsoncpp: in the order of their keys.
abbrev pub Table : Type 0
Table = List (Text × Text)

unfoldable pub text_lt : Text → Text → Bool
text_lt [] [] = false
text_lt [] (d ∷ t) = true
text_lt (c ∷ s) [] = false
text_lt (c ∷ s) (d ∷ t) = ltb c d || (c == d && text_lt s t)

unfoldable pub insert : Text → Text → Table → Table
unfolding text_lt
insert key value [] = (key, value) ∷ []
insert key value ((k, v) ∷ table) =
    let rest = insert key value table in
    if text_lt key k then (key, value) ∷ (k, v) ∷ table else (k, v) ∷ rest

unfoldable pub remove : Text → Table → Table
remove key [] = []
remove key ((k, v) ∷ table) =
    let rest = remove key table in if text_eq k key then rest else (k, v) ∷ rest

-- `table[key] = value`.
unfoldable pub put : Text → Text → Table → Table
unfolding insert remove
put key value table = insert key value (remove key table)

unfoldable pub find_value : Text → Table → Option Text
find_value key [] = none
find_value key ((k, v) ∷ table) =
    let rest = find_value key table in if text_eq k key then some v else rest

-- An entry of the manifest's "file" array: "page" and "md5".
pub record FileItem : Type 0 where
  pub page : Text
  pub md5 : Text

unfoldable pub put_key : Option Text → Text → Table → Table
put_key none md5 table = table
put_key (some key) md5 table = if is_empty_text key then table else put key md5 table

unfoldable pub map_item : (Text → Option Text) → Table → FileItem → Table
unfolding put_key to_upper_ascii
map_item full_key table item =
    let page = trim_ascii item.page in
    let md5 = to_upper_ascii (trim_ascii item.md5) in
    if is_empty_text page || is_empty_text md5 then table else put_key (full_key page) md5 table

-- `mappedFiles`.
unfoldable pub mapped_files : (Text → Option Text) → Table → List FileItem → Table
unfolding map_item
mapped_files full_key table [] = table
mapped_files full_key table (item ∷ items) =
    mapped_files full_key (map_item full_key table item) items

-- `payload`.
unfoldable pub payload_of : Table → Text
payload_of [] = []
payload_of ((k, v) ∷ table) = (k ++ 9 ∷ v) ++ 10 ∷ payload_of table

-- `kVersionMapMaxBytes`.
abbrev pub version_map_max_bytes : ℕ
version_map_max_bytes = 8 * 1024 * 1024

-- `WriteVersionToMapping`, of the array (`none`: the manifest is no JSON object, or the current path
-- is not known) and whether the section is created and viewed; and what the section holds.
unfoldable pub write_version_to_mapping :
    (Text → Option Text) → Option (List FileItem) → Bool → Bool → Option Text → Option Text
unfolding mapped_files payload_of
write_version_to_mapping full_key none created viewed section = section
write_version_to_mapping full_key (some items) created viewed section =
    let payload = payload_of (mapped_files full_key [] items) in
    if is_empty_text payload || ltb version_map_max_bytes (length payload + 1)
    then section
    else if created && viewed
    then some (payload ++ 0 ∷ [])
    else none

-- The end of a line: one '\r' is dropped.
unfoldable pub drop_cr : Text → Text
drop_cr [] = []
drop_cr (c ∷ []) = if c == 13 then [] else c ∷ []
drop_cr (c ∷ d ∷ s) = c ∷ drop_cr (d ∷ s)

unfoldable pub before_tab : ℕ → Option (Text × Text) → Option (Text × Text)
before_tab c none = none
before_tab c (some (key, value)) = some (c ∷ key, value)

-- What stands before the first '\t', and behind it.
unfoldable pub split_tab : Text → Option (Text × Text)
unfolding before_tab
split_tab [] = none
split_tab (c ∷ s) = let rest = before_tab c (split_tab s) in if c == 9 then some ([], s) else rest

unfoldable pub put_field : (Text → Text) → Table → Option (Text × Text) → Table
put_field normal table none = table
put_field normal table (some (key, value)) =
    if is_empty_text key || is_empty_text value
    then table
    else if is_empty_text (normal key) || is_empty_text (to_upper_ascii value)
    then table
    else put (normal key) (to_upper_ascii value) table

unfoldable pub parse_line : (Text → Text) → Table → Text → Table
unfolding drop_cr split_tab put_field
parse_line normal table line = put_field normal table (split_tab (drop_cr line))

unfoldable pub parse_lines : (Text → Text) → Table → List Text → Table
unfolding parse_line
parse_lines normal table [] = table
parse_lines normal table (line ∷ lines) = parse_lines normal (parse_line normal table line) lines

-- `ParseVersionMapPayload` into an empty map; it returns whether the map is not empty.
unfoldable pub parse_version_map_payload : (Text → Text) → Text → Table
unfolding parse_lines
parse_version_map_payload normal payload = parse_lines normal [] (getlines payload)

-- The text in a view, up to its first NUL.
unfoldable pub view_text : Text → Text
view_text [] = []
view_text (c ∷ s) = let rest = view_text s in if c == 0 then [] else c ∷ rest

unfoldable pub swapped : Table → Table → Table × Bool
swapped files [] = (files, false)
swapped files (entry ∷ table) = (entry ∷ table, true)

-- `RefreshVersionMapFromSharedMemory`, of the bytes of the view (`none`: there is none).
unfoldable pub refresh_version_map : (Text → Text) → Option Text → Table → Table × Bool
unfolding parse_version_map_payload view_text swapped
refresh_version_map normal none files = (files, false)
refresh_version_map normal (some view) files =
    if is_empty_text (view_text view)
    then (files, false)
    else swapped files (parse_version_map_payload normal (view_text view))

unfoldable pub filled_md5 : Option Text → Option Text
filled_md5 none = none
filled_md5 (some md5) = if is_empty_text md5 then none else some md5

-- `TryGetExpectedMd5ByKey`.
unfoldable pub try_get_expected_md5 : Text → Table → Option Text
unfolding find_value filled_md5
try_get_expected_md5 key files =
    if is_empty_text key then none else filled_md5 (find_value key files)
