-- ===== src/Archive/Copies.antt =====
-- What the unpacking of one entry leaves in a file (RebornLauncher/Archive.cpp), and how `ExtractFiles`
-- finds the entry.
use reborn_launcher.Base.{
  not, Bool, if-cases, ◌≡◌, refl, sym, ap, ◌⊎◌, true, false, List, [], ◌∷◌, ◌++◌, Option, none,
  some, inl, inr, arith, Text, text_eq_iff, text_eq_refl, Bool-cases, All, concat,
}
use reborn_launcher.Archive.{make_safe_relative_path, DataBlock, Normal}
use reborn_launcher.Archive.Extract.{
  relative_path, write_entry, Written, write_blocks, write_safe, Disk, Entry, entry_name,
  extract_entry, next_entry, is_named,
}
use reborn_launcher.Archive.Among.{IsAmong, behind-IsAmong}

module _ (normal : Text → Normal) (disk : Disk) (prefix directory : Text) where
  -- Every entry can be unpacked by itself.
  abbrev pub CanUnpack : List Entry → Type 0
  CanUnpack entries =
      All
        (λ e.
          (name : Text)
          → entry_name e ≡ some name
          → (extract_entry normal disk prefix directory name e).0 ≡ true)
        entries

-- `w` is the file of the scan's `f`, opened below the directory, with all bytes of the entry `e` of that
-- name.
pub record IsCopy (normal : Text → Normal) (prefix directory : Text) (f : DataBlock) (e : Entry)
    (w : Written) : Type 0 where
  pub named : entry_name e ≡ some f.file_path
  pub safe : Text
  pub checked : make_safe_relative_path normal (relative_path prefix f.file_path) ≡ some safe
  pub placed : w.target ≡ directory ++ 47 ∷ safe
  pub filled : w.content ≡ concat e.blocks

-- The written files are those of the list in turn, copied from entries that follow one another.
abbrev pub AreCopies :
    (Text → Normal) → Text → Text → List DataBlock → List Entry → List Written → Type 0
AreCopies normal prefix directory [] entries [] = Unit
AreCopies normal prefix directory [] entries (w ∷ ws) = ⊥
AreCopies normal prefix directory (f ∷ fs) [] ws = ⊥
AreCopies normal prefix directory (f ∷ fs) (e ∷ entries) [] = ⊥
AreCopies normal prefix directory (f ∷ fs) (e ∷ entries) (w ∷ ws) =
    (IsCopy normal prefix directory f e w × AreCopies normal prefix directory fs entries ws)
    ⊎ AreCopies normal prefix directory (f ∷ fs) entries (w ∷ ws)

-- What the search for the next entry of a name finds.
abbrev pub Finds :
    (Text → Normal)
    → Disk
    → Text
    → Text
    → DataBlock
    → List DataBlock
    → List Entry
    → Option (Entry × List Entry)
    → Type 0
Finds normal disk prefix directory f fs entries none = ⊥
Finds normal disk prefix directory f fs entries (some (e, behind)) =
    ((extract_entry normal disk prefix directory f.file_path e).0 ≡ true)
    × IsAmong fs behind
    × CanUnpack normal disk prefix directory behind
    × (entry_name e ≡ some f.file_path)
    × ((w : Written) (ws : List Written)
        → IsCopy normal prefix directory f e w
        → AreCopies normal prefix directory fs behind ws
        → AreCopies normal prefix directory (f ∷ fs) entries (w ∷ ws))

later-Finds :
    (normal : Text → Normal) (disk : Disk) (prefix directory : Text) (f : DataBlock)
    (fs : List DataBlock) (e : Entry) (entries : List Entry) (o : Option (Entry × List Entry))
    → Finds normal disk prefix directory f fs entries o
    → Finds normal disk prefix directory f fs (e ∷ entries) o
later-Finds normal disk prefix directory f fs e entries none found = absurd found
later-Finds normal disk prefix directory f fs e entries (some (e', behind)) found =
    let (ok, among, can, name, copies) = found in
    (ok, among, can, name, λ w ws c rest. inr (copies w ws c rest))

is_named-name : (name : Text) (o : Option Text) → is_named name o ≡ true → o ≡ some name
unfolding is_named
is_named-name name none h = cc
is_named-name name (some other) h = ap some (sym ((text_eq_iff name other).0 h))

is_named_self : (name : Text) (o : Option Text) → o ≡ some name → is_named name o ≡ true
unfolding is_named
is_named_self name o h = rw h (text_eq_refl name)

module _ (normal : Text → Normal) (disk : Disk) (prefix directory : Text) where
  pub next_entry-Finds :
      (f : DataBlock) (fs : List DataBlock) (entries : List Entry)
      → IsAmong (f ∷ fs) entries
      → CanUnpack normal disk prefix directory entries
      → Finds normal disk prefix directory f fs entries (next_entry f.file_path entries)
  unfolding next_entry
  next_entry-Finds f fs [] among can = absurd among
  next_entry-Finds f fs (e ∷ entries) among can =
      elim (Bool-cases (is_named f.file_path (entry_name e))) [
        | inl here ↦ simp here (
          can.0 f.file_path (is_named-name f.file_path (entry_name e) here),
          behind-IsAmong f fs e entries among,
          can.1,
          is_named-name f.file_path (entry_name e) here,
          λ w ws c rest. inl (c, rest),
        )
        | inr elsewhere ↦ elim among [
          | inl (name, _) ↦ let here = is_named_self f.file_path (entry_name e) name in cc
          | inr later ↦ simp elsewhere (
              later-Finds normal disk prefix directory f fs e entries _
                (next_entry-Finds f fs entries later can.1))
        ]
      ]

-- A file that an entry was unpacked to, where that succeeded.
abbrev pub IsCopied :
    (Text → Normal) → Text → Text → DataBlock → Entry → Bool × Option Written → Type 0
IsCopied normal prefix directory f e (done, none) = done ≡ false
IsCopied normal prefix directory f e (done, some w) =
    done ≡ true → IsCopy normal prefix directory f e w

write_blocks-concat :
    (disk : Disk) (target : Text) (blocks : List Text)
    → (write_blocks disk target blocks).1 ≡ true
    → (write_blocks disk target blocks).0 ≡ concat blocks
unfolding write_blocks
write_blocks-concat disk target [] h = refl
write_blocks-concat disk target (block ∷ blocks) h =
    elim (Bool-cases (disk.takes_block target block)) [
      | inl taken ↦
          let all : (write_blocks disk target blocks).1 ≡ true = simp taken at h in
          simp taken (ap (λ t. block ++ t) (write_blocks-concat disk target blocks all))
      | inr full ↦ let clash : false ≡ true = simp full at h in cc
    ]

module _ (normal : Text → Normal) (disk : Disk) (prefix directory : Text) (f : DataBlock)
    (e : Entry) (named : entry_name e ≡ some f.file_path) where
  write_entry-IsCopied :
      (safe : Text)
      → make_safe_relative_path normal (relative_path prefix f.file_path) ≡ some safe
      → IsCopied normal prefix directory f e (write_entry disk (directory ++ 47 ∷ safe) e)
  unfolding write_entry
  write_entry-IsCopied safe checked =
      let target = directory ++ 47 ∷ safe in
      let P = IsCopied normal prefix directory f e in
      if-cases P (not (disk.has_parent target)) _ _ (λ _. refl)
        (λ _.
          if-cases P (not (disk.opens_file target)) _ _ (λ _. refl)
            (λ _ done. record {
              named = named;
              safe = safe;
              checked = checked;
              placed = refl;
              filled = write_blocks-concat disk target e.blocks (ground arith);
            }))

  write_safe-IsCopied :
      (o : Option Text)
      → make_safe_relative_path normal (relative_path prefix f.file_path) ≡ o
      → IsCopied normal prefix directory f e (write_safe disk directory e o)
  unfolding write_safe
  write_safe-IsCopied none checked = refl
  write_safe-IsCopied (some safe) checked = write_entry-IsCopied safe checked

  pub extract_entry-IsCopied :
      IsCopied normal prefix directory f e
        (extract_entry normal disk prefix directory f.file_path e)
  unfolding extract_entry
  extract_entry-IsCopied = write_safe-IsCopied _ refl
