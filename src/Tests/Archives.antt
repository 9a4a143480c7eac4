-- ===== src/Tests/Archives.antt =====
-- An archive with two files of the same folder and one of a folder beside it.
use reborn_launcher.Paths.{slash}
use reborn_launcher.Base.{
  ◌<◌, ◌≤◌, text_eq, arith, ◌++◌, ◌≡◌, refl, subst, true, false, List, [], ◌∷◌, Option, none, some,
  Text, All,
}
use reborn_launcher.Deferred.{to_lower_ascii, is_empty_text}
use reborn_launcher.Archive.{
  archive_file_name, determine_exe_root_prefix, strip_archive_prefix, normalize_archive_path,
  make_safe_relative_path, DataBlock, Normal, split_archive_path,
}
use reborn_launcher.Archive.Extract.{
  scan_archive, Archive, Disk, Entry, extract_files, extract_entry, entry_name, scan_entries,
}
use reborn_launcher.Archive.Batches.{files_per_thread, thread_count, extract_7z}
use reborn_launcher.Archive.Safe.{IsBelow, extract_files-IsBelow}
use reborn_launcher.Archive.Copies.{CanUnpack}
use reborn_launcher.Archive.Unpacked.{extract_files-IsDone, extract_7z_lem, IsDone, IsUnpacked7z}

-- "out", and paths that are in their normal form.
abbrev root : Text
root = 111 ∷ 117 ∷ 116 ∷ []

abbrev plain : Text → Normal
plain path = record {
  empty = is_empty_text path;
  absolute = false;
  parts = split_archive_path path;
  generic = path;
}

abbrev fine : Disk
fine = record {
  has_parent = λ _. true;
  opens_file = λ _. true;
  takes_block = λ _ _. true;
  closes_file = λ _. true;
}

-- "a", and "/b".
abbrev first : Entry
first = record {
  pathname = some (97 ∷ []);
  regular = true;
  position = 32;
  blocks = (1 ∷ 2 ∷ []) ∷ (3 ∷ []) ∷ [];
  data_ends = true;
}

abbrev second : Entry
second = record {
  pathname = some (47 ∷ 98 ∷ []);
  regular = true;
  position = 64;
  blocks = [];
  data_ends = true;
}

abbrev small : Archive
small = record { opens = true; entries = first ∷ second ∷ first ∷ []; headers_end = true }

abbrev two : List DataBlock
two =
    record { file_path = 98 ∷ []; file_offset = 64 }
    ∷ record { file_path = 97 ∷ []; file_offset = 32 }
    ∷ []

abbrev before_two : List DataBlock
before_two = record { file_path = 97 ∷ []; file_offset = 32 } ∷ []

extract_files-IsBelow_example :
    All (λ w. IsBelow root w.target) (extract_files plain fine small [] root two).files
extract_files-IsBelow_example = extract_files-IsBelow plain fine small [] root two (λ p near h. h)

abbrev Unpacks : Entry → Option Text → Type 0
Unpacks e none = Unit
Unpacks e (some name) = (extract_entry plain fine [] root name e).0 ≡ true

first-Unpacks : Unpacks first (entry_name first)
unfolding entry_name is_empty_text extract_entry make_safe_relative_path normalize_archive_path
    strip_archive_prefix slash split_archive_path text_eq
first-Unpacks = refl

second-Unpacks : Unpacks second (entry_name second)
unfolding entry_name is_empty_text extract_entry make_safe_relative_path normalize_archive_path
    strip_archive_prefix slash split_archive_path text_eq
second-Unpacks = refl

small-CanUnpack : CanUnpack plain fine [] root small.entries
small-CanUnpack = (
  λ name h. subst (Unpacks first) h first-Unpacks,
  (
    λ name h. subst (Unpacks second) h second-Unpacks,
    (λ name h. subst (Unpacks first) h first-Unpacks, tt),
  ),
)

small-scan : scan_entries small.entries ≡ before_two ++ two ++ []
unfolding scan_entries is_empty_text normalize_archive_path slash
small-scan = refl

extract_files-IsDone_example :
    IsDone plain [] root two small.entries (extract_files plain fine small [] root two)
extract_files-IsDone_example =
    extract_files-IsDone plain fine [] root small before_two two [] refl small-CanUnpack small-scan

extract_7z_lem_example :
    (2 ≤ 3 → IsUnpacked7z plain [] root small.entries (extract_7z plain fine small 2 [] root))
    × (3 < 2 → extract_7z plain fine small 2 [] root ≡ none)
unfolding scan_entries is_empty_text normalize_archive_path slash scan_archive
    determine_exe_root_prefix to_lower_ascii archive_file_name thread_count files_per_thread
extract_7z_lem_example =
    extract_7z_lem plain fine small 2 [] root refl (omega arith) small-CanUnpack

-- Five files and four threads: the third batch ends behind the last file.
abbrev five_files : Archive
five_files = record {
  opens = true;
  entries = first ∷ second ∷ first ∷ second ∷ first ∷ [];
  headers_end = true;
}

extract_7z-five_files : extract_7z plain fine five_files 4 [] root ≡ none
unfolding extract_7z scan_archive is_empty_text normalize_archive_path slash
extract_7z-five_files = refl
