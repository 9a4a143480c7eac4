-- ===== src/Archive/Batches.antt =====
-- How `Extract7z` of RebornLauncher/Archive.cpp shares the files out among its threads.
use reborn_launcher.Base.{
  inr, ltb→lt, inl, Bool-cases, subst, sym, take-drop, if-cases, ℕ, zero, suc, ◌+◌, ◌*◌, ◌-◌, ◌/◌,
  ◌≤◌, ◌<◌, ◌≡◌, refl, min, Bool, true, false, ◌&&◌, List, [], ◌∷◌, Option, none, some, ltb, leb,
  ◌==◌, if◌then◌else◌, Text, length, arith, take, drop, concat, drop-length,
}
use reborn_launcher.Archive.{DataBlock, Normal}
use reborn_launcher.Archive.Extract.{Archive, Disk, Run, scan_archive, extract_files}

-- `numThreads`, of what the system says it has.
unfoldable pub thread_count : ℕ → ℕ → ℕ
thread_count hardware n = min (if hardware == 0 then 1 else hardware) n

-- `filesPerThread`.
unfoldable pub files_per_thread : ℕ → ℕ → ℕ
files_per_thread n threads = (n + threads - 1) / threads

-- `end` of the batch with that number.
unfoldable pub batch_end : ℕ → ℕ → ℕ → ℕ → ℕ
batch_end n threads per i = if i == threads - 1 then n else (i + 1) * per

unfoldable pub and_batch :
    List DataBlock → Option (List (List DataBlock)) → Option (List (List DataBlock))
and_batch batch none = none
and_batch batch (some batches) = some (batch ∷ batches)

-- The batch from `start` to `end`, unless that is empty, before the others; `none`: a range that
-- reaches behind the last file is copied, which is undefined.
unfoldable pub add_batch :
    ℕ → ℕ → List DataBlock → Option (List (List DataBlock)) → Option (List (List DataBlock))
unfolding and_batch
add_batch start end files rest =
    if leb end start
    then rest
    else if ltb (length files) end
    then none
    else and_batch (take (end - start) (drop start files)) rest

-- The batches of the last `left` threads, from number `i`.
unfoldable pub batches_from : ℕ → ℕ → ℕ → ℕ → List DataBlock → Option (List (List DataBlock))
unfolding batch_end add_batch
batches_from threads per zero i files = some []
batches_from threads per (suc left) i files =
    add_batch (i * per) (batch_end (length files) threads per i) files
      (batches_from threads per left (i + 1) files)

unfoldable pub batches : ℕ → List DataBlock → Option (List (List DataBlock))
unfolding thread_count files_per_thread batches_from
batches hardware files =
    let threads = thread_count hardware (length files) in
    batches_from threads (files_per_thread (length files) threads) threads 0 files

-- The runs of the threads, each of which sees the others' files only at its end.
unfoldable pub all_ok : List Run → Bool
all_ok [] = true
all_ok (run ∷ runs) = run.ok && all_ok runs

-- What `Extract7z` returns, and what its threads did.
pub record Unpacked7z : Type 0 where
  pub ok : Bool
  pub runs : List Run

unfoldable pub run_batches :
    (Text → Normal) → Disk → Archive → Text → Text → List (List DataBlock) → List Run
run_batches normal disk a prefix out_path [] = []
run_batches normal disk a prefix out_path (batch ∷ rest) =
    extract_files normal disk a prefix out_path batch
    ∷ run_batches normal disk a prefix out_path rest

unfoldable pub extract_batches :
    (Text → Normal)
    → Disk
    → Archive
    → Text
    → Text
    → Option (List (List DataBlock))
    → Option Unpacked7z
unfolding all_ok run_batches
extract_batches normal disk a prefix out_path none = none
extract_batches normal disk a prefix out_path (some bs) =
    let runs = run_batches normal disk a prefix out_path bs in
    some (record { ok = all_ok runs; runs = runs })

-- `Extract7z` of fewer than 2 ^ 31 files: what it does (`none`: undefined).
unfoldable pub extract_7z : (Text → Normal) → Disk → Archive → ℕ → Text → Text → Option Unpacked7z
unfolding extract_batches batches
extract_7z normal disk a hardware old_prefix out_path =
    let (files, prefix) = scan_archive a old_prefix in
    if length files == 0
    then some (record { ok = false; runs = [] })
    else extract_batches normal disk a prefix out_path (batches hardware files)

-- The outcome of sharing out: all files in order.
abbrev pub Shares : List DataBlock → Option (List (List DataBlock)) → Type 0
Shares files none = ⊥
Shares files (some bs) = concat bs ≡ files

batch_end_last : (n threads per i : ℕ) → i + 1 ≡ threads → batch_end n threads per i ≡ n
unfolding batch_end
batch_end_last n threads per i h = ground arith

batch_end_inner :
    (n threads per i : ℕ) → i + 1 < threads → batch_end n threads per i ≡ i * per + per
unfolding batch_end
batch_end_inner n threads per i h = ground arith

and_batch-Shares :
    (a b : ℕ) (files : List DataBlock) (o : Option (List (List DataBlock)))
    → a ≤ b
    → Shares (drop b files) o
    → Shares (drop a files) (and_batch (take (b - a) (drop a files)) o)
unfolding and_batch
and_batch-Shares a b files none h s = s
and_batch-Shares a b files (some bs) h s = rw s (take-drop a b files h)

add_batch-Shares :
    (a b : ℕ) (files : List DataBlock) (o : Option (List (List DataBlock)))
    → a ≤ b
    → b ≤ length files
    → Shares (drop b files) o
    → Shares (drop a files) (add_batch a b files o)
unfolding add_batch
add_batch-Shares a b files o h fits s =
    if-cases (Shares (drop a files)) (leb b a) _ _
      (λ past. let same : a ≡ b = ground arith in rw same s)
      (λ before.
        if-cases (Shares (drop a files)) (ltb (length files) b) _ _ (λ over. absurd (ground arith))
          (λ in_range. and_batch-Shares a b files o h s))

add_batch-none : (a b : ℕ) (files : List DataBlock) → add_batch a b files none ≡ none
unfolding add_batch and_batch
add_batch-none a b files = ground arith

add_batch-over :
    (a b : ℕ) (files : List DataBlock) (o : Option (List (List DataBlock)))
    → a < b
    → length files < b
    → add_batch a b files o ≡ none
unfolding add_batch
add_batch-over a b files o h over = ground arith

batches_from-Shares :
    (threads per left i : ℕ) (files : List DataBlock)
    → i + suc left ≡ threads
    → i * per + left * per ≤ length files
    → Shares (drop (i * per) files) (batches_from threads per (suc left) i files)
unfolding batches_from
batches_from-Shares threads per zero i files t fits =
    let n = length files in
    rw (batch_end_last n threads per i t) (
      add_batch-Shares (i * per) n files (some []) (omega arith) (omega arith)
        (sym (drop-length n files (omega arith))))
batches_from-Shares threads per (suc left) i files t fits =
    let n = length files in
    let next : (i + 1) * per ≡ i * per + per = omega arith in
    let rest = batches_from-Shares threads per left (i + 1) files (omega arith) (omega arith) in
    rw (batch_end_inner n threads per i (omega arith)) (
      add_batch-Shares (i * per) (i * per + per) files
        (batches_from threads per (suc left) (i + 1) files) (omega arith) (omega arith)
        (subst (λ s. Shares (drop s files) (batches_from threads per (suc left) (i + 1) files)) next
          rest))

-- Where the last batch would start behind the last file, an earlier batch ends there.
batches_from-overrun :
    (threads per left i : ℕ) (files : List DataBlock)
    → 0 < per
    → i + suc left ≡ threads
    → i * per ≤ length files
    → length files < i * per + left * per
    → batches_from threads per (suc left) i files ≡ none
unfolding batches_from
batches_from-overrun threads per zero i files p t before over = absurd (omega arith)
batches_from-overrun threads per (suc left) i files p t before over =
    let n = length files in
    let next : (i + 1) * per ≡ i * per + per = omega arith in
    let rest = batches_from threads per (suc left) (i + 1) files in
    rw (batch_end_inner n threads per i (omega arith)) (elim (Bool-cases (ltb n (i * per + per))) [
      | inl out ↦ add_batch-over (i * per) (i * per + per) files rest (omega arith) (ltb→lt n _ out)
      | inr fits ↦
          let later =
            batches_from-overrun threads per left (i + 1) files p (omega arith) (ground arith)
              (omega arith) in
          rw later (add_batch-none (i * per) (i * per + per) files)
    ])

abbrev pub IsSharedOut : ℕ → ℕ → ℕ → List DataBlock → Type 0
IsSharedOut threads per left files =
    (left * per ≤ length files
      → (bs : List (List DataBlock)) × (batches_from threads per threads 0 files ≡ some bs)
        × (concat bs ≡ files))
    × (length files < left * per → batches_from threads per threads 0 files ≡ none)

whole :
    (files : List DataBlock) (o : Option (List (List DataBlock)))
    → Shares files o
    → (bs : List (List DataBlock)) × (o ≡ some bs) × (concat bs ≡ files)
whole files none s = absurd s
whole files (some bs) s = (bs, refl, s)

first-Shares :
    (per left : ℕ) (files : List DataBlock)
    → left * per ≤ length files
    → Shares files (batches_from (suc left) per (suc left) 0 files)
first-Shares per left files fits =
    let start : 0 * per ≡ 0 = omega arith in
    subst (λ a. Shares (drop a files) (batches_from (suc left) per (suc left) 0 files)) start
      (batches_from-Shares (suc left) per left 0 files (omega arith) (omega arith))

first-overrun :
    (per left : ℕ) (files : List DataBlock)
    → length files < left * per
    → batches_from (suc left) per (suc left) 0 files ≡ none
first-overrun zero left files over = absurd (omega arith)
first-overrun (suc per) left files over =
    batches_from-overrun (suc left) (suc per) left 0 files (omega arith) (omega arith) (omega arith)
      (omega arith)

from_first : (per left : ℕ) (files : List DataBlock) → IsSharedOut (suc left) per left files
from_first per left files = (
  λ fits.
      whole files (batches_from (suc left) per (suc left) 0 files)
        (first-Shares per left files fits),
  first-overrun per left files,
)

-- The batches of `Extract7z`, which each have the number of files divided by the number of threads,
-- rounded up. Where the last batch starts at or before the end of the files, the batches in order
-- are all the files; where it would start behind the end, an earlier batch reaches behind the end.
pub batches_lem :
    (hardware : ℕ) (files : List DataBlock)
    → 0 < length files
    → let threads = thread_count hardware (length files) in
      let last_start = (threads - 1) * files_per_thread (length files) threads in
      (last_start ≤ length files
        → (bs : List (List DataBlock)) × (batches hardware files ≡ some bs) × (concat bs ≡ files))
      × (length files < last_start → batches hardware files ≡ none)
unfolding batches thread_count
batches_lem hardware files some_files =
    let n = length files in
    let threads = thread_count hardware n in
    let per = files_per_thread n threads in
    let left = threads - 1 in
    let count : suc left ≡ threads = ground arith in
    subst (λ t. IsSharedOut t per left files) count (from_first per left files)
