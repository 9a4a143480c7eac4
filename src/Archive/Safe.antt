-- ===== src/Archive/Safe.antt =====
-- Where `ExtractFiles` of RebornLauncher/Archive.cpp writes.
use reborn_launcher.Base.{
  ◌≡◌, refl, ap, Bool, true, false, not, ◌||◌, List, [], ◌∷◌, ◌++◌, Option, none, some, inl, inr,
  arith, Text, text_eq, Bool-cases, if-cases, ◌==◌, All,
}
use reborn_launcher.Deferred.{member, is_empty_text}
use reborn_launcher.Paths.{drop_slashes}
use reborn_launcher.Archive.{
  DataBlock, Normal, split_archive_path, cut_parts, keep_part, climbs, some_filled,
  make_safe_relative_path,
}
use reborn_launcher.Archive.Extract.{
  Archive, Disk, Entry, Written, Run, extract_files, extract_loop, extract_entry, with_entry,
  and_then, and_file, next_entry, write_entry, write_safe, relative_path,
}

abbrev pub dot_dot : Text
dot_dot = 46 ∷ 46 ∷ []

unfoldable pub starts_with_slash : Text → Bool
starts_with_slash [] = false
starts_with_slash (c ∷ s) = c == 47

-- A path below a directory that no part of it leaves.
pub record IsBelow (directory target : Text) : Type 0 where
  pub inner : Text
  pub whole : target ≡ directory ++ 47 ∷ inner
  pub filled : is_empty_text inner ≡ false
  pub relative : starts_with_slash inner ≡ false
  pub inside : member dot_dot (split_archive_path inner) ≡ false

-- Of a path that is not absolute, a part ".." of the generic text is one of the path's parts. (A drive,
-- as in "C:a", is a part of the path, and joined to the next one in the text.)
abbrev pub ShowsDotDot : (Text → Normal) → Type 0
ShowsDotDot normal =
    (path : Text)
    → (normal path).absolute ≡ false
    → member dot_dot (split_archive_path (normal path).generic) ≡ true
    → member dot_dot (normal path).parts ≡ true

split-drop_slashes : (s : Text) → split_archive_path (drop_slashes s) ≡ split_archive_path s
unfolding split_archive_path cut_parts drop_slashes keep_part is_empty_text
split-drop_slashes [] = refl
split-drop_slashes (c ∷ s) = elim (Bool-cases (c == 47)) [
  | inl yes' ↦ rw yes' (split-drop_slashes s)
  | inr no' ↦ simp no' refl
]

drop_slashes-start : (s : Text) → starts_with_slash (drop_slashes s) ≡ false
unfolding drop_slashes starts_with_slash
drop_slashes-start [] = refl
drop_slashes-start (c ∷ s) = ground (arith, drop_slashes-start s)

climbs-member : (parts : List Text) → climbs parts ≡ member dot_dot parts
unfolding climbs member
climbs-member [] = refl
climbs-member (part ∷ parts) = ap (λ b. text_eq part dot_dot || b) (climbs-member parts)

abbrev SafeOr : Option Text → Type 0
SafeOr none = Unit
SafeOr (some s) =
    (is_empty_text s ≡ false)
    × (starts_with_slash s ≡ false)
    × (member dot_dot (split_archive_path s) ≡ false)

some_filled-SafeOr :
    (s : Text)
    → starts_with_slash s ≡ false
    → member dot_dot (split_archive_path s) ≡ false
    → SafeOr (some_filled s)
unfolding some_filled
some_filled-SafeOr s start inside =
    if-cases SafeOr (is_empty_text s) _ _ (λ _. tt) (λ filled. (filled, start, inside))

parts_inside :
    (normal : Text → Normal)
    → ShowsDotDot normal
    → (input : Text) → (normal input).absolute ≡ false
    → climbs (normal input).parts ≡ false
    → member dot_dot (split_archive_path (normal input).generic) ≡ false
parts_inside normal h input near stays =
    let same = climbs-member (normal input).parts in
    elim (Bool-cases (member dot_dot (split_archive_path (normal input).generic))) [
      | inl out ↦ let there = h input near out in cc
      | inr inside ↦ inside
    ]

make_safe-SafeOr :
    (normal : Text → Normal)
    → ShowsDotDot normal
    → (input : Text) → SafeOr (make_safe_relative_path normal input)
unfolding make_safe_relative_path
make_safe-SafeOr normal h input =
    let p = normal input in
    if-cases SafeOr (p.empty || p.absolute) _ _ (λ _. tt)
      (λ near.
        if-cases SafeOr (climbs p.parts) _ _ (λ _. tt)
          (λ stays.
            some_filled-SafeOr (drop_slashes p.generic) (drop_slashes-start p.generic) (
              rw (split-drop_slashes p.generic)
                (parts_inside normal h input (ground arith) stays))))

IsBelow-of :
    (directory safe : Text) → SafeOr (some safe) → IsBelow directory (directory ++ 47 ∷ safe)
IsBelow-of directory safe (filled, relative, inside) = record {
  inner = safe;
  whole = refl;
  filled = filled;
  relative = relative;
  inside = inside;
}

abbrev BelowOr : Text → Bool × Option Written → Type 0
BelowOr directory (done, none) = Unit
BelowOr directory (done, some w) = IsBelow directory w.target

write_entry-BelowOr :
    (disk : Disk) (directory target : Text) (e : Entry)
    → IsBelow directory target
    → BelowOr directory (write_entry disk target e)
unfolding write_entry
write_entry-BelowOr disk directory target e below =
    if-cases (BelowOr directory) (not (disk.has_parent target)) _ _ (λ _. tt)
      (λ _. if-cases (BelowOr directory) (not (disk.opens_file target)) _ _ (λ _. tt) (λ _. below))

write_safe-BelowOr :
    (disk : Disk) (directory : Text) (e : Entry) (o : Option Text)
    → SafeOr o
    → BelowOr directory (write_safe disk directory e o)
unfolding write_safe
write_safe-BelowOr disk directory e none s = tt
write_safe-BelowOr disk directory e (some safe) s =
    write_entry-BelowOr disk directory (directory ++ 47 ∷ safe) e (IsBelow-of directory safe s)

abbrev AllBelow : Text → Run → Type 0
AllBelow directory run = All (λ w. IsBelow directory w.target) run.files

and_then-AllBelow :
    (directory : Text) (step : Bool × Option Written) (rest : Run)
    → BelowOr directory step
    → AllBelow directory rest
    → AllBelow directory (and_then step rest)
unfolding and_then and_file
and_then-AllBelow directory (true, none) rest b all = all
and_then-AllBelow directory (false, none) rest b all = tt
and_then-AllBelow directory (true, some w) rest b all = (b, all)
and_then-AllBelow directory (false, some w) rest b all = (b, tt)

with_entry-AllBelow :
    (directory : Text) (extract : Entry → Bool × Option Written) (others : List Entry → Run)
    (o : Option (Entry × List Entry))
    → ((e : Entry) → BelowOr directory (extract e))
    → ((es : List Entry) → AllBelow directory (others es))
    → AllBelow directory (with_entry extract others o)
unfolding with_entry
with_entry-AllBelow directory extract others none one all = tt
with_entry-AllBelow directory extract others (some (e, behind)) one all =
    and_then-AllBelow directory (extract e) (others behind) (one e) (all behind)

module _ (normal : Text → Normal) (h : ShowsDotDot normal) (disk : Disk)
    (prefix directory : Text) where
  extract_entry-BelowOr :
      (name : Text) (e : Entry)
      → BelowOr directory (extract_entry normal disk prefix directory name e)
  unfolding extract_entry
  extract_entry-BelowOr name e =
      write_safe-BelowOr disk directory e
        (make_safe_relative_path normal (relative_path prefix name))
        (make_safe-SafeOr normal h (relative_path prefix name))

  extract_loop-AllBelow :
      (files : List DataBlock) (entries : List Entry)
      → AllBelow directory (extract_loop normal disk prefix directory files entries)
  unfolding extract_loop
  extract_loop-AllBelow [] entries = tt
  extract_loop-AllBelow (file ∷ files) entries =
      with_entry-AllBelow directory (extract_entry normal disk prefix directory file.file_path)
        (extract_loop normal disk prefix directory files) (next_entry file.file_path entries)
        (extract_entry-BelowOr file.file_path) (extract_loop-AllBelow files)

-- Every file that `ExtractFiles` opens for writing, for any archive, any prefix and any list of
-- files, and whether or not the run succeeds, has a path of the form target directory, '/', rest,
-- where the rest is not empty, does not begin with '/' and has no part ".."; provided that, for a
-- path that is not absolute, a part ".." of the generic text that std::filesystem gives it is one of
-- the parts that it lists.
pub extract_files-IsBelow :
    (normal : Text → Normal) (disk : Disk) (a : Archive) (prefix directory : Text)
    (files : List DataBlock)
    → ShowsDotDot normal
    → All
        (λ w. IsBelow directory w.target)
        (extract_files normal disk a prefix directory files).files
unfolding extract_files
extract_files-IsBelow normal disk a prefix directory files h =
    if-cases (AllBelow directory) a.opens _ _
      (λ _. extract_loop-AllBelow normal h disk prefix directory files a.entries) (λ _. tt)
