-- ===== src/Tests/Forges.antt =====
-- Two folders with a file that is new, one that changed and one that did not.
use reborn_launcher.Base.{
  ◌≡◌, refl, List, [], ◌∷◌, Option, none, some, map, Text, text_eq, ◌==◌, if◌then◌else◌,
}
use reborn_launcher.Forge.{are_files_binary_equal, collect_changed_files}
use reborn_launcher.Forge.Equal.{are_files_binary_equal-text_eq}
use reborn_launcher.Forge.Changed.{
  Node, folder, file, entry_of, base_file, changed_paths, collect_changed_files-changed_paths,
}

abbrev left : Text
left = 1 ∷ 2 ∷ []

abbrev right : Text
right = 1 ∷ 3 ∷ []

are_files_binary_equal-text_eq_example :
    are_files_binary_equal left right ≡ some (text_eq left right)
are_files_binary_equal-text_eq_example = are_files_binary_equal-text_eq left right

abbrev base : Text → Option Text
base [] = none
base (c ∷ path) = if c == 110 then none else some left

-- "n" is new, "c" changed, and "s" did not.
abbrev nodes : List Node
nodes = file (110 ∷ []) left ∷ folder ∷ file (99 ∷ []) right ∷ file (115 ∷ []) left ∷ []

collect_changed_files-changed_paths_example :
    collect_changed_files (λ p. base_file (base p)) (map entry_of nodes)
    ≡ some (changed_paths base nodes)
collect_changed_files-changed_paths_example = collect_changed_files-changed_paths base nodes

changed_of_nodes : changed_paths base nodes ≡ (110 ∷ []) ∷ (99 ∷ []) ∷ []
unfolding changed_paths text_eq
changed_of_nodes = refl
