-- ===== src/Forge.antt =====
-- Comparing the files of two folders (UpdateForge/UpdateForge.cpp). A file that opens is the text that
-- reading gives up to its end; what std::filesystem answers for an entry of the new folder is an
-- `Entry`, for the file of that name in the base folder a `BaseFile`.
pub mod Equal
pub mod Changed
use reborn_launcher.Base.{
  ℕ, zero, suc, ◌+◌, ◌*◌, Bool, true, false, not, ◌&&◌, ◌||◌, List, [], ◌∷◌, ◌++◌, Option, none,
  some, ◌==◌, if◌then◌else◌, text_eq, Text, length, take, drop,
}

-- The size of the buffers.
abbrev pub block_size : ℕ
block_size = 64 * 1024

-- The loop of `AreFilesBinaryEqual`, for at most so many rounds.
unfoldable pub compare_blocks : ℕ → Text → Text → Option Bool
compare_blocks zero left right = none
compare_blocks (suc rounds) left right =
    let rest = compare_blocks rounds (drop block_size left) (drop block_size right) in
    if not (length (take block_size left) == length (take block_size right))
    then some false
    else if length (take block_size left) == 0
    then some true
    else if not (text_eq (take block_size left) (take block_size right))
    then some false
    else rest

-- `AreFilesBinaryEqual` of two files that open: one round more than the first file has bytes.
unfoldable pub are_files_binary_equal : Text → Text → Option Bool
unfolding compare_blocks
are_files_binary_equal left right = compare_blocks (suc (length left)) left right

-- An entry of the new folder: whether it is a directory (an error counts as false, since the next test
-- meets it again); and, where each may fail (`none`), whether it is a regular
-- file, its relative path, its size, and its content (`none`: it does not open).
pub record Entry : Type 0 where
  pub directory : Bool
  pub regular : Option Bool
  pub relative : Option Text
  pub size : Option ℕ
  pub content : Option Text

-- A file of the base folder: whether it exists and is a regular file, its size and its content.
pub record BaseFile : Type 0 where
  pub regular : Bool
  pub size : Option ℕ
  pub content : Option Text

pub data Verdict : Type 0 where
  skipped : Verdict
  changed : Text → Verdict
  failed : Verdict

unfoldable pub same_verdict : Text → Option Bool → Verdict
same_verdict path none = failed
same_verdict path (some same) = if same then skipped else changed path

unfoldable pub same_content : Text → Option Text → Option Text → Verdict
unfolding same_verdict
same_content path none new = failed
same_content path (some base) none = failed
same_content path (some base) (some new) = same_verdict path (are_files_binary_equal base new)

same_size : Text → BaseFile → Option Text → Option ℕ → Verdict
unfolding same_content
same_size path base new none = failed
same_size path base new (some size) = elim base.size [
  | none ↦ failed
  | some base_size ↦ if size == base_size then same_content path base.content new else changed path
]

of_path : (Text → BaseFile) → Entry → Option Text → Verdict
unfolding same_size
of_path base e none = failed
of_path base e (some path) =
    if (base path).regular then same_size path (base path) e.content e.size else changed path

of_regular : (Text → BaseFile) → Entry → Option Bool → Verdict
unfolding of_path
of_regular base e none = failed
of_regular base e (some regular) = if regular then of_path base e e.relative else skipped

-- One round of the loop of `CollectChangedFiles`.
unfoldable pub judge : (Text → BaseFile) → Entry → Verdict
unfolding of_regular
judge base e = if e.directory then skipped else of_regular base e e.regular

unfoldable pub add_changed : Verdict → Option (List Text) → Option (List Text)
add_changed skipped rest = rest
add_changed failed rest = none
add_changed (changed path) none = none
add_changed (changed path) (some paths) = some (path ∷ paths)

-- `CollectChangedFiles`, of the entries of the new folder; `none`: it returns false.
unfoldable pub collect_changed_files : (Text → BaseFile) → List Entry → Option (List Text)
unfolding judge add_changed
collect_changed_files base [] = some []
collect_changed_files base (e ∷ entries) =
    add_changed (judge base e) (collect_changed_files base entries)
