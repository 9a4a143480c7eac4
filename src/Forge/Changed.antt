-- ===== src/Forge/Changed.antt =====
-- Which files UpdateForge/UpdateForge.cpp finds changed.
use reborn_launcher.Base.{
  Option-cases, map, ==_iff, ◌≡◌, refl, sym, ap, Bool, true, false, not, List, [], ◌∷◌, Option,
  none, some, ◌==◌, if◌then◌else◌, Bool-cases, inl, inr, text_eq, Text, length, arith,
}
use reborn_launcher.Forge.{
  same_verdict, same_content, Entry, BaseFile, skipped, changed, judge, add_changed,
  collect_changed_files,
}
use reborn_launcher.Forge.Equal.{different, are_files_binary_equal-text_eq}

-- What stands in a folder where nothing fails: folders, files, and what is neither.
pub data Node : Type 0 where
  folder : Node
  special : Node
  file : Text → Text → Node

abbrev pub entry_of : Node → Entry
entry_of folder = record {
  directory = true;
  regular = some false;
  relative = none;
  size = none;
  content = none;
}
entry_of special = record {
  directory = false;
  regular = some false;
  relative = none;
  size = none;
  content = none;
}
entry_of (file path text) = record {
  directory = false;
  regular = some true;
  relative = some path;
  size = some (length text);
  content = some text;
}

-- A base folder where nothing fails, by the content of its files.
abbrev pub base_file : Option Text → BaseFile
base_file none = record { regular = false; size = none; content = none }
base_file (some text) = record { regular = true; size = some (length text); content = some text }

differs : Option Text → Text → Bool
differs none new = true
differs (some old) new = not (text_eq old new)

-- The paths of the files that the base folder does not hold with the same content.
unfoldable pub changed_paths : (Text → Option Text) → List Node → List Text
unfolding differs
changed_paths base [] = []
changed_paths base (folder ∷ nodes) = changed_paths base nodes
changed_paths base (special ∷ nodes) = changed_paths base nodes
changed_paths base (file path text ∷ nodes) =
    let rest = changed_paths base nodes in if differs (base path) text then path ∷ rest else rest

true_not_false : (b : Bool) → b ≡ true → b ≡ false → ⊥
true_not_false b h k = ground arith

other_size : (old new : Text) → (length new == length old) ≡ false → text_eq old new ≡ false
other_size old new h = different old new (λ e.
    let n : length new ≡ length old = ap (λ t. length t) (sym e) in
    let same = (==_iff (length new) (length old)).1 n in true_not_false _ same h)

same_content_lem :
    (path old text : Text)
    → same_content path (some old) (some text)
      ≡ (if text_eq old text then skipped else changed path)
unfolding same_content same_verdict
same_content_lem path old text = rw (are_files_binary_equal-text_eq old text) refl

verdict-file :
    (base : Text → Option Text) (path text : Text)
    → judge (λ p. base_file (base p)) (entry_of (file path text))
      ≡ (if differs (base path) text then changed path else skipped)
unfolding judge differs
verdict-file base path text = elim (Option-cases (base path)) [
  | inl missing ↦ rw missing refl
  | inr (old, there) ↦
      let same = same_content_lem path old text in
      rw there (elim (Bool-cases (length text == length old)) [
        | inl size ↦
            rw (size, same)
              (elim (Bool-cases (text_eq old text)) [
                | inl equal ↦ rw equal refl
                | inr apart ↦ rw apart refl
              ])
        | inr size ↦ rw (size, other_size old text size) refl
      ])
]

add_changed-if :
    (b : Bool) (path : Text) (paths : List Text)
    → add_changed (if b then changed path else skipped) (some paths)
      ≡ some (if b then path ∷ paths else paths)
unfolding add_changed
add_changed-if true path paths = refl
add_changed-if false path paths = refl

-- Where nothing fails and the size of each file is the number of its bytes, `CollectChangedFiles`
-- succeeds, and its list has, in the order of the folder, the paths of exactly the files that the
-- base folder does not hold with the same content.
pub collect_changed_files-changed_paths :
    (base : Text → Option Text) (nodes : List Node)
    → collect_changed_files (λ p. base_file (base p)) (map entry_of nodes)
      ≡ some (changed_paths base nodes)
unfolding collect_changed_files changed_paths judge add_changed
collect_changed_files-changed_paths base [] = refl
collect_changed_files-changed_paths base (folder ∷ nodes) =
    collect_changed_files-changed_paths base nodes
collect_changed_files-changed_paths base (special ∷ nodes) =
    collect_changed_files-changed_paths base nodes
collect_changed_files-changed_paths base (file path text ∷ nodes) =
    let rest = collect_changed_files-changed_paths base nodes in
    rw (rest, verdict-file base path text)
      (add_changed-if (differs (base path) text) path (changed_paths base nodes))
