-- ===== src/Archive/Unpacked.antt =====
-- What `ExtractFiles` and `Extract7z` of RebornLauncher/Archive.cpp unpack.
use reborn_launcher.Base.{
  Bool, ◌≤◌, append_assoc, ℕ, ◌*◌, ◌-◌, ◌<◌, ◌≡◌, refl, sym, ◌∙◌, true, false, List, [], ◌∷◌, ◌++◌,
  Option, none, some, arith, Text, ◌==◌, length, concat,
}
use reborn_launcher.Archive.{DataBlock, Normal}
use reborn_launcher.Archive.Extract.{
  Written, and_file, Archive, Disk, Entry, Run, scan_archive, scan_entries, extract_files,
  extract_loop, extract_entry, with_entry, and_then, next_entry,
}
use reborn_launcher.Archive.Batches.{
  Unpacked7z, batches_lem, thread_count, files_per_thread, extract_7z, all_ok, run_batches,
  extract_batches,
}
use reborn_launcher.Archive.Among.{IsAmong, scan-IsAmong}
use reborn_launcher.Archive.Copies.{
  CanUnpack, IsCopy, AreCopies, Finds, IsCopied, next_entry-Finds, extract_entry-IsCopied,
}

-- A run that succeeds, and copies the files of the list.
pub record IsDone (normal : Text → Normal) (prefix directory : Text) (files : List DataBlock)
    (entries : List Entry) (run : Run) : Type 0 where
  pub ok : run.ok ≡ true
  pub count : run.finished ≡ length files
  pub copies : AreCopies normal prefix directory files entries run.files

and_then-IsDone :
    (normal : Text → Normal) (prefix directory : Text) (f : DataBlock) (fs : List DataBlock)
    (e : Entry) (behind entries : List Entry) (step : Bool × Option Written) (rest : Run)
    → step.0 ≡ true
    → IsCopied normal prefix directory f e step
    → ((w : Written) (ws : List Written)
        → IsCopy normal prefix directory f e w
        → AreCopies normal prefix directory fs behind ws
        → AreCopies normal prefix directory (f ∷ fs) entries (w ∷ ws))
    → IsDone normal prefix directory fs behind rest
    → IsDone normal prefix directory (f ∷ fs) entries (and_then step rest)
unfolding and_then and_file
and_then-IsDone normal prefix directory f fs e behind entries (done, none) rest ok copied lift h =
    absurd (ground arith)
and_then-IsDone normal prefix directory f fs e behind entries (true, some w) rest ok copied lift h =
    record {
      ok = h.ok;
      count = let n = h.count in omega arith;
      copies = lift w rest.files (copied refl) h.copies;
    }
and_then-IsDone normal prefix directory f fs e behind entries (false, some w) rest ok copied lift
      h =
    absurd (ground arith)

with_entry-IsDone :
    (normal : Text → Normal) (disk : Disk) (prefix directory : Text) (f : DataBlock)
    (fs : List DataBlock) (entries : List Entry) (others : List Entry → Run)
    (o : Option (Entry × List Entry))
    → Finds normal disk prefix directory f fs entries o
    → ((es : List Entry)
        → IsAmong fs es
        → CanUnpack normal disk prefix directory es
        → IsDone normal prefix directory fs es (others es))
    → IsDone normal prefix directory
        (f ∷ fs)
        entries
        (with_entry (extract_entry normal disk prefix directory f.file_path) others o)
unfolding with_entry
with_entry-IsDone normal disk prefix directory f fs entries others none found done = absurd found
with_entry-IsDone normal disk prefix directory f fs entries others (some (e, behind)) found done =
    let (ok, among, can, named, lift) = found in
    and_then-IsDone normal prefix directory f fs e behind entries
      (extract_entry normal disk prefix directory f.file_path e) (others behind) ok
      (extract_entry-IsCopied normal disk prefix directory f e named) lift (done behind among can)

-- The runs are those of the batches, in turn.
abbrev pub AllDone :
    (Text → Normal) → Text → Text → List Entry → List (List DataBlock) → List Run → Type 0
AllDone normal prefix directory entries [] [] = Unit
AllDone normal prefix directory entries [] (run ∷ runs) = ⊥
AllDone normal prefix directory entries (batch ∷ bs) [] = ⊥
AllDone normal prefix directory entries (batch ∷ bs) (run ∷ runs) =
    IsDone normal prefix directory batch entries run
    × AllDone normal prefix directory entries bs runs

module _ (normal : Text → Normal) (disk : Disk) (prefix directory : Text) where
  extract_loop-IsDone :
      (files : List DataBlock) (entries : List Entry)
      → IsAmong files entries
      → CanUnpack normal disk prefix directory entries
      → IsDone normal prefix directory files entries
          (extract_loop normal disk prefix directory files entries)
  unfolding extract_loop
  extract_loop-IsDone [] entries among can = record { ok = refl; count = refl; copies = tt }
  extract_loop-IsDone (f ∷ fs) entries among can =
      with_entry-IsDone normal disk prefix directory f fs entries
        (extract_loop normal disk prefix directory fs) (next_entry f.file_path entries)
        (next_entry-Finds normal disk prefix directory f fs entries among can)
        (extract_loop-IsDone fs)

  -- `ExtractFiles` on any run of the files that the scan of the archive lists, in their order,
  -- succeeds, provided that the archive opens and that every entry can be unpacked by itself. It
  -- opens one file for each of the list, in turn, at the checked path of its name below the target
  -- directory, and writes to it all data of an entry of that name; these entries follow one another
  -- in the archive. (Where a name occurs more than once, that need not be the entry that was scanned.)
  pub extract_files-IsDone :
      (a : Archive) (before files after : List DataBlock)
      → a.opens ≡ true
      → CanUnpack normal disk prefix directory a.entries
      → scan_entries a.entries ≡ before ++ files ++ after
      → IsDone normal prefix directory files a.entries
          (extract_files normal disk a prefix directory files)
  unfolding extract_files
  extract_files-IsDone a before files after opens can scanned =
      simp opens (
        extract_loop-IsDone files a.entries (scan-IsAmong a.entries before files after scanned) can)

  run_batches-AllDone :
      (a : Archive) (bs : List (List DataBlock)) (before : List DataBlock)
      → a.opens ≡ true
      → CanUnpack normal disk prefix directory a.entries
      → scan_entries a.entries ≡ before ++ concat bs
      → (all_ok (run_batches normal disk a prefix directory bs) ≡ true)
        × AllDone normal prefix directory a.entries bs
            (run_batches normal disk a prefix directory bs)
  unfolding all_ok run_batches
  run_batches-AllDone a [] before opens can scanned = (refl, tt)
  run_batches-AllDone a (batch ∷ bs) before opens can scanned =
      let split = scanned ∙ sym (append_assoc before batch (concat bs)) in
      let done = extract_files-IsDone a before batch (concat bs) opens can split in
      let (ok, rest) = run_batches-AllDone a bs (before ++ batch) opens can split in
      (simp (done.ok, ok) refl, (done, rest))

open-scan :
    (a : Archive) (old_prefix : Text)
    → a.opens ≡ true
    → (scan_archive a old_prefix).0 ≡ scan_entries a.entries
unfolding scan_archive
open-scan a old_prefix opens = simp opens refl

-- All files are shared out among the threads, and each thread copies its share.
pub record IsUnpacked7z (normal : Text → Normal) (prefix directory : Text) (entries : List Entry)
    (o : Option Unpacked7z) : Type 0 where
  pub shares : List (List DataBlock)
  pub runs : List Run
  pub result : o ≡ some (record { ok = true; runs = runs })
  pub shared : concat shares ≡ scan_entries entries
  pub done : AllDone normal prefix directory entries shares runs

extract_batches-IsUnpacked7z :
    (normal : Text → Normal) (disk : Disk) (a : Archive) (prefix directory : Text)
    (o : Option (List (List DataBlock)))
    → a.opens ≡ true
    → CanUnpack normal disk prefix directory a.entries
    → (bs : List (List DataBlock)) × (o ≡ some bs) × (concat bs ≡ scan_entries a.entries)
    → IsUnpacked7z normal prefix directory a.entries
        (extract_batches normal disk a prefix directory o)
unfolding extract_batches
extract_batches-IsUnpacked7z normal disk a prefix directory o opens can (bs, shared, all) =
    let (ok, done) = run_batches-AllDone normal disk prefix directory a bs [] opens can (sym all) in
    record {
      shares = bs;
      runs = run_batches normal disk a prefix directory bs;
      result = rw shared (rw ok refl);
      shared = all;
      done = done;
    }

-- `Extract7z` of an archive that opens, that lists files, and whose every entry can be unpacked by
-- itself below the prefix that the scan finds. Where the last thread's batch starts at or before the
-- end of the list, it returns true, the threads' batches in turn are all files that the scan lists,
-- and each thread opens one file for each of its batch, in turn, at the checked path of its name below
-- the target directory, and writes to it all data of an entry of that name; these entries follow one
-- another in the archive. Where the last batch would start behind the end, the copy of an earlier
-- batch reaches behind the end of the list, which is undefined.
pub extract_7z_lem :
    (normal : Text → Normal) (disk : Disk) (a : Archive) (hardware : ℕ)
    (old_prefix directory : Text)
    → a.opens ≡ true
    → 0 < length (scan_entries a.entries)
    → CanUnpack normal disk (scan_archive a old_prefix).1 directory a.entries
    → let n = length (scan_entries a.entries) in
      let threads = thread_count hardware n in
      let last_start = (threads - 1) * files_per_thread n threads in
      (last_start ≤ n
        → IsUnpacked7z normal
            (scan_archive a old_prefix).1
            directory
            a.entries
            (extract_7z normal disk a hardware old_prefix directory))
      × (n < last_start → extract_7z normal disk a hardware old_prefix directory ≡ none)
unfolding extract_7z extract_batches
extract_7z_lem normal disk a hardware old_prefix directory opens some_files can =
    let prefix = (scan_archive a old_prefix).1 in
    let files = open-scan a old_prefix opens in
    let (whole, over) = batches_lem hardware (scan_entries a.entries) some_files in
    let filled : (length (scan_entries a.entries) == 0) ≡ false = ground arith in
    (
      λ fits.
          rw (files, filled)
            (extract_batches-IsUnpacked7z normal disk a prefix directory _ opens can (whole fits)),
      λ long. let no_batches = over long in rw (files, filled) (rw no_batches refl),
    )
