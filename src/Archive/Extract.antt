-- ===== src/Archive/Extract.antt =====
-- Scanning, checking and unpacking an archive (RebornLauncher/Archive.cpp). libarchive reads an
-- `Archive` from front to back; each `ExtractFiles` opens it anew.
use reborn_launcher.Base.{
  ℕ, ◌+◌, Bool, true, false, not, ◌&&◌, ◌||◌, List, [], ◌∷◌, ◌++◌, Option, none, some,
  if◌then◌else◌, text_eq, Text,
}
use reborn_launcher.Deferred.{is_empty_text}
use reborn_launcher.Archive.{
  DataBlock, Normal, normalize_archive_path, archive_file_name, determine_exe_root_prefix,
  strip_archive_prefix, make_safe_relative_path,
}

-- An entry: its name (`none`: libarchive has none), whether it is a regular file, where its header
-- stands, the blocks of data that are read, and whether they end in ARCHIVE_EOF.
pub record Entry : Type 0 where
  pub pathname : Option Text
  pub regular : Bool
  pub position : ℕ
  pub blocks : List Text
  pub data_ends : Bool

-- Whether the archive opens, the entries whose headers are read, and whether these end in
-- ARCHIVE_EOF.
pub record Archive : Type 0 where
  pub opens : Bool
  pub entries : List Entry
  pub headers_end : Bool

-- Whether a file's directory is there or can be made, whether the file opens, whether the stream is
-- good after a block, and after it was closed.
pub record Disk : Type 0 where
  pub has_parent : Text → Bool
  pub opens_file : Text → Bool
  pub takes_block : Text → Text → Bool
  pub closes_file : Text → Bool

-- A file that was opened for writing, and what went into it.
pub record Written : Type 0 where
  pub target : Text
  pub content : Text

-- The entries that are read before the first regular one with unreadable data.
unfoldable pub readable_entries : List Entry → Bool
readable_entries [] = true
readable_entries (e ∷ entries) =
    let rest = readable_entries entries in
    if not e.regular then rest else if e.data_ends then rest else false

unfoldable pub has_regular : List Entry → Bool
has_regular [] = false
has_regular (e ∷ entries) = e.regular || has_regular entries

-- `VerifyArchiveReadable`.
unfoldable pub verify_archive_readable : Archive → Bool
unfolding readable_entries has_regular
verify_archive_readable a =
    if not a.opens
    then false
    else if not (readable_entries a.entries)
    then false
    else if not a.headers_end
    then false
    else has_regular a.entries

filled_name : Option Text → Option Text
filled_name none = none
filled_name (some name) = if is_empty_text name then none else some name

normal_name : Option Text → Option Text
normal_name none = none
normal_name (some name) = some (normalize_archive_path name)

-- The name under which an entry is unpacked; `none`: the loops skip it.
unfoldable pub entry_name : Entry → Option Text
unfolding filled_name normal_name
entry_name e = if e.regular then normal_name (filled_name e.pathname) else none

unfoldable pub scanned_as : Entry → List DataBlock → Option Text → List DataBlock
scanned_as e rest none = rest
scanned_as e rest (some name) =
    if is_empty_text name
    then rest
    else record { file_path = name; file_offset = e.position } ∷ rest

unfoldable pub scan_entries : List Entry → List DataBlock
unfolding scanned_as entry_name
scan_entries [] = []
scan_entries (e ∷ entries) = scanned_as e (scan_entries entries) (entry_name e)

-- `ScanArchive`: the files, and the prefix it sets. Where the archive does not open, the prefix stays.
unfoldable pub scan_archive : Archive → Text → List DataBlock × Text
unfolding scan_entries
scan_archive a old_prefix =
    if not a.opens
    then ([], old_prefix)
    else let files = scan_entries a.entries in (files, determine_exe_root_prefix files)

unfoldable pub is_named : Text → Option Text → Bool
is_named name none = false
is_named name (some other) = text_eq name other

-- The next entry of that name, and the entries behind it.
unfoldable pub next_entry : Text → List Entry → Option (Entry × List Entry)
unfolding is_named entry_name
next_entry name [] = none
next_entry name (e ∷ entries) =
    let later = next_entry name entries in
    if is_named name (entry_name e) then some (e, entries) else later

-- The path below the target directory at which a file is unpacked, before it is checked.
unfoldable pub relative_path : Text → Text → Text
relative_path prefix name =
    let relative = normalize_archive_path (strip_archive_prefix name prefix) in
    if is_empty_text relative then archive_file_name name else relative

-- The blocks that are written, and whether all were.
unfoldable pub write_blocks : Disk → Text → List Text → Text × Bool
write_blocks disk target [] = ([], true)
write_blocks disk target (block ∷ blocks) =
    let (text, all) = write_blocks disk target blocks in
    if disk.takes_block target block then (block ++ text, all) else ([], false)

-- The unpacking of one entry to a file: whether it succeeds, and the file that was opened.
unfoldable pub write_entry : Disk → Text → Entry → Bool × Option Written
unfolding write_blocks
write_entry disk target e =
    let (text, all) = write_blocks disk target e.blocks in
    if not (disk.has_parent target)
    then (false, none)
    else if not (disk.opens_file target)
    then (false, none)
    else (
      all && disk.closes_file target && e.data_ends,
      some (record { target = target; content = text }),
    )

unfoldable pub write_safe : Disk → Text → Entry → Option Text → Bool × Option Written
unfolding write_entry
write_safe disk out_path e none = (false, none)
write_safe disk out_path e (some safe) = write_entry disk (out_path ++ 47 ∷ safe) e

unfoldable pub extract_entry :
    (Text → Normal) → Disk → Text → Text → Text → Entry → Bool × Option Written
unfolding write_safe relative_path
extract_entry normal disk prefix out_path name e =
    write_safe disk out_path e (make_safe_relative_path normal (relative_path prefix name))

-- What a run did: whether it succeeds, the files it opened in order, and how many it finished.
pub record Run : Type 0 where
  pub ok : Bool
  pub files : List Written
  pub finished : ℕ

unfoldable pub and_file : Option Written → List Written → List Written
and_file none files = files
and_file (some w) files = w ∷ files

unfoldable pub and_then : Bool × Option Written → Run → Run
unfolding and_file
and_then (done, w) rest =
    if done
    then record { ok = rest.ok; files = and_file w rest.files; finished = 1 + rest.finished }
    else record { ok = false; files = and_file w []; finished = 0 }

unfoldable pub with_entry :
    (Entry → Bool × Option Written) → (List Entry → Run) → Option (Entry × List Entry) → Run
unfolding and_then
with_entry extract others none = record { ok = false; files = []; finished = 0 }
with_entry extract others (some (e, behind)) = and_then (extract e) (others behind)

-- The loop of `ExtractFiles`.
unfoldable pub extract_loop :
    (Text → Normal) → Disk → Text → Text → List DataBlock → List Entry → Run
unfolding next_entry extract_entry with_entry
extract_loop normal disk prefix out_path [] entries = record { ok = true; files = []; finished = 0 }
extract_loop normal disk prefix out_path (file ∷ files) entries =
    with_entry (extract_entry normal disk prefix out_path file.file_path)
      (extract_loop normal disk prefix out_path files) (next_entry file.file_path entries)

-- `ExtractFiles`.
unfoldable pub extract_files : (Text → Normal) → Disk → Archive → Text → Text → List DataBlock → Run
unfolding extract_loop
extract_files normal disk a prefix out_path files =
    if a.opens
    then extract_loop normal disk prefix out_path files a.entries
    else record { ok = false; files = []; finished = 0 }
