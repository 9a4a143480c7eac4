-- ===== src/Chunked/Sound.antt =====
-- A chunked download that returns true (ChunkDownload.cpp): what stands at the target.
use reborn_launcher.Base.{
  ◌⊎◌, ◌==◌, inr, inl, ℕ, ◌+◌, ◌≤◌, ◌<◌, ◌≡◌, refl, true, false, List, [], ◌∷◌, Option, none, some,
  arith, All, All-get_elem?, get_elem?, Bool-cases, Text, u64_mod,
}
use reborn_launcher.Files.{FileData}
use reborn_launcher.Chunk.{ChunkRecord, ChunkState, chunk_length, all_done, are_all_chunks_done}
use reborn_launcher.Chunk.Tiling.{Tiles, IsFresh, Tiles-covers, initialize-Tiles, chunk_length_lem}
use reborn_launcher.Executor.{Shared, start_workers, configure}
use reborn_launcher.Executor.Invariant.{IsGood, SharedOk}
use reborn_launcher.Executor.Stuck.{IsShort}
use reborn_launcher.Executor.Safety.{closed-stream_file, AllFair, run_schedule-SharedOk}
use reborn_launcher.SingleStream.{Progress, to_int, set_size, single_stream}
use reborn_launcher.SingleStream.Sound.{AllMatch, delivered, single_stream_sound}
use reborn_launcher.Chunked.{
  stream_file, close_tmp, saved_by_workers, save, Store, ChunkedAnswers, ChunkedResult, ready,
  download_chunk_size, create_tmp, ensure_sized_temp_file, initial_state, close_full, close_all,
  close_full_chunks, shared_of, fall_back, finish_chunked, workers_done, run_workers, prepare,
  with_state, with_size, download_chunked, file_size_is, after_workers,
}

-- The target is the remote file.
abbrev pub IsRemote : (ℕ → ℕ) → ℕ → Option FileData → Type 0
IsRemote content n target =
    (f : FileData) × (target ≡ some f) × (f.size ≡ n) × ((o : ℕ) → o < n → f.byte o ≡ content o)

all_done-All : (cs : List ChunkRecord) → all_done cs ≡ true → All (λ c. c.done ≡ true) cs
unfolding all_done
all_done-All [] h = tt
all_done-All (c ∷ cs) h = (ground arith, all_done-All cs (ground arith))

-- Closed chunks hold every byte.
closed-bytes :
    (content : ℕ → ℕ) (n : ℕ) (s : Shared)
    → SharedOk content n s
    → all_done s.chunks ≡ true
    → (o : ℕ) → o < n
    → s.file o ≡ content o
closed-bytes content n s ok h o lt =
    let (j, c, e, lo, hi) = Tiles-covers s.chunks 0 n o ok.tiles (omega arith) lt in
    let good = ok.good j c e in
    let done = All-get_elem? (λ c. c.done ≡ true) s.chunks j c (all_done-All s.chunks h) e in
    let full = good.closed done in good.bytes o lo (omega arith)

module _ (content : ℕ → ℕ) (a : ChunkedAnswers) (n : ℕ) where
  finish-IsRemote :
      (store : Store) (s : ChunkState) (p : Progress) (f : FileData)
      → store.tmp ≡ some f
      → (all_done s.chunks ≡ true → (o : ℕ) → o < n → f.byte o ≡ content o)
      → (finish_chunked a store s n p).ok ≡ true
      → IsRemote content n (finish_chunked a store s n p).store.target
  unfolding finish_chunked are_all_chunks_done file_size_is
  finish-IsRemote store s p f e bytes ok = (f, ground arith, ground arith, bytes (ground arith))

  fall_back-IsRemote :
      (store : Store)
      → AllMatch content 0 a.fallback.blocks
      → delivered a.fallback.blocks < u64_mod
      → (fall_back a store n).ok ≡ true
      → IsRemote content n (fall_back a store n).store.target
  unfolding fall_back file_size_is
  fall_back-IsRemote store m small ok =
      let p : Progress = record { size = to_int n; done = 0 } in
      let fine : (single_stream a.fallback store.target p).ok ≡ true = ground arith in
      let (f, e, size, _, bytes) =
        single_stream_sound content a.fallback store.target p m small fine in
      let full : f.size ≡ n = ground arith in (f, ground arith, full, λ o lt. bytes o (omega arith))

  after_workers-tmp_file :
      (st : Store) (c : ChunkState) (sh : Shared)
      → a.close_lost ≡ none
      → (after_workers a st c sh).tmp ≡ some (stream_file sh)
  unfolding after_workers save saved_by_workers close_tmp
  after_workers-tmp_file st c sh closed = ground arith

  -- Where all chunks are done, the stream took all bytes and did not fail.
  stream_file-bytes :
      (sh : Shared)
      → SharedOk content n sh
      → (stream_file sh ≡ record { size = sh.extent; byte = sh.file })
        ⊎ ((i : ℕ) × IsShort i sh.chunks)
      → all_done sh.chunks ≡ true
      → (o : ℕ) → o < n
      → (stream_file sh).byte o ≡ content o
  stream_file-bytes sh good kept done o lt =
      let all = λ (j : ℕ) (c : ChunkRecord) (e : get_elem? sh.chunks j ≡ some c).
        All-get_elem? (λ c. c.done ≡ true) sh.chunks j c (all_done-All sh.chunks done) e in
      let whole = closed-stream_file content n sh good all kept in
      rw whole (closed-bytes content n sh good done o lt)

  workers_done-IsRemote :
      (st : Store) (c : ChunkState) (sh : Shared)
      → SharedOk content n sh
      → (stream_file sh ≡ record { size = sh.extent; byte = sh.file })
        ⊎ ((i : ℕ) × IsShort i sh.chunks)
      → a.close_lost ≡ none
      → AllMatch content 0 a.fallback.blocks
      → delivered a.fallback.blocks < u64_mod
      → (workers_done a st c n sh).ok ≡ true
      → IsRemote content n (workers_done a st c n sh).store.target
  unfolding workers_done are_all_chunks_done
  workers_done-IsRemote st c sh good kept closed m small = elim (Bool-cases sh.failed) [
    | inl bad ↦ simp bad λ ok. fall_back-IsRemote (after_workers a st c sh) m small ok
    | inr fine ↦ simp fine λ ok.
        finish-IsRemote (after_workers a st c sh) (record c { chunks = sh.chunks }) _
          (stream_file sh) (after_workers-tmp_file st c sh closed) (stream_file-bytes sh good kept)
          ok
  ]

  run_workers-IsRemote :
      (st : Store) (c : ChunkState) (f : FileData) (threads : ℕ) (p : Progress)
      → SharedOk content n (shared_of c f)
      → AllFair content n (configure threads n) (start_workers (shared_of c f)) a.schedule
      → a.close_lost ≡ none
      → AllMatch content 0 a.fallback.blocks
      → delivered a.fallback.blocks < u64_mod
      → (run_workers a st c f threads n p).ok ≡ true
      → IsRemote content n (run_workers a st c f threads n p).store.target
  unfolding run_workers
  run_workers-IsRemote st c f threads p good fair closed m small =
      let held_now =
        run_schedule-SharedOk content n (configure threads n) (shared_of c f) a.schedule refl good
          fair in
      elim (Bool-cases a.stream_opens) [
        | inl fine ↦ simp fine λ ok.
            workers_done-IsRemote (save a.first_save st c) c _ held_now.0 held_now.1 closed m small
              ok
        | inr bad ↦ simp bad λ ok. absurd (ground arith)
      ]

  download_chunked-run :
      (store : Store) (url : Text) (threads : ℕ) (p : Progress) (s : ChunkState) (f : FileData)
      → a.session ≡ true
      → a.probe ≡ some n
      → 0 < n
      → initial_state url n store.state ≡ some s
      → ensure_sized_temp_file a store.tmp n ≡ ready f
      → download_chunked a store url threads p
        ≡ some (
            run_workers a
              (record store { tmp = some f })
              (close_full_chunks s)
              f
              threads
              n
              (set_size p n))
  unfolding download_chunked with_size with_state prepare
  download_chunked-run store url threads p s f there probe pos loaded sized =
      let positive : (n == 0) ≡ false = ground arith in simp (there, probe, positive, loaded, sized)

-- Where the URL parses, the probe gives the size of the remote file, above 0 and below 2^64, and the
-- temp file is ready: a chunked download returns, and if it returns true, the target is the remote
-- file, byte for byte, whether the workers or the single-stream download that replaces them brought
-- it. This holds for every schedule in which the remote serves what the workers ask for, whatever
-- seeks and writes of the temp file fail, if the closing of that file writes out what its buffer
-- holds; for every body of fewer than 2^64 bytes for the single stream that is the remote's so far;
-- and for every starting state whose chunks cover the file in turn, none counting more bytes than it
-- has and a closed one counting all, where the temp file has the remote's size and its bytes that count
-- as downloaded are the remote's.
pub download_chunked_sound :
    (content : ℕ → ℕ) (a : ChunkedAnswers) (n : ℕ) (store : Store) (url : Text) (threads : ℕ)
    (p : Progress) (s : ChunkState) (f : FileData)
    → a.session ≡ true
    → a.probe ≡ some n
    → 0 < n
    → initial_state url n store.state ≡ some s
    → ensure_sized_temp_file a store.tmp n ≡ ready f
    → SharedOk content n (shared_of (close_full_chunks s) f)
    → AllFair content n
        (configure threads n)
        (start_workers (shared_of (close_full_chunks s) f))
        a.schedule
    → a.close_lost ≡ none
    → AllMatch content 0 a.fallback.blocks
    → delivered a.fallback.blocks < u64_mod
    → (r : ChunkedResult) × (download_chunked a store url threads p ≡ some r)
      × (r.ok ≡ true → IsRemote content n r.store.target)
download_chunked_sound content a n store url threads p s f there probe pos loaded sized good fair
      closed m small =
    (
      _,
      download_chunked-run content a n store url threads p s f there probe pos loaded sized,
      run_workers-IsRemote content a n _ (close_full_chunks s) f threads (set_size p n) good fair
          closed m small,
    )

close_full-open : (c : ChunkRecord) → c.downloaded < chunk_length c → close_full c ≡ c
unfolding close_full
close_full-open c h = ground arith

fresh-close :
    (cs : List ChunkRecord) (from n : ℕ)
    → Tiles from n cs
    → n < u64_mod
    → All (IsFresh download_chunk_size) cs
    → close_all cs ≡ cs
unfolding close_all
fresh-close [] from n t small h = refl
fresh-close (c ∷ cs) from n (e, lo, hi, rest) small (fresh, h) =
    let tail = fresh-close cs (c.end + 1) n rest small h in
    let len = chunk_length_lem c lo (omega arith) in
    let still = close_full-open c (omega arith) in simp (still, tail)

ensure-size :
    (a : ChunkedAnswers) (tmp : Option FileData) (n : ℕ) (f : FileData)
    → ensure_sized_temp_file a tmp n ≡ ready f
    → f.size ≡ n
unfolding ensure_sized_temp_file create_tmp
ensure-size a none n f e = ground arith
ensure-size a (some g) n f e = ground arith

fresh-IsGood :
    (content file : ℕ → ℕ) (cs : List ChunkRecord) (j : ℕ) (c : ChunkRecord)
    → All (IsFresh download_chunk_size) cs
    → get_elem? cs j ≡ some c
    → IsGood content file c
fresh-IsGood content file cs j c h e =
    let (empty, undone, size) = All-get_elem? (IsFresh download_chunk_size) cs j c h e in
    record { bounded = omega arith; closed = λ done. cc; bytes = λ o lo hi. absurd (omega arith) }

-- A new state counts no byte, so it agrees with every temp file of the right size.
fresh-SharedOk :
    (content : ℕ → ℕ) (n : ℕ) (s : ChunkState) (f : FileData)
    → Tiles 0 n s.chunks
    → n < u64_mod
    → All (IsFresh download_chunk_size) s.chunks
    → f.size ≡ n
    → SharedOk content n (shared_of (close_full_chunks s) f)
unfolding close_full_chunks
fresh-SharedOk content n s f t small fresh size =
    let same = fresh-close s.chunks 0 n t small fresh in
    record {
      tiles = rw same t;
      small = small;
      sized = size;
      good = rw same λ j c e. fresh-IsGood content f.byte s.chunks j c fresh e;
    }

-- With no state file to resume from, and whatever bytes a temp file of the right size has: where the
-- URL parses, the probe gives the size of the remote file, above 0 and with room for one more chunk
-- below 2^64, and the temp file is ready, a chunked download returns, and if it returns true, the
-- target is the remote file, byte for byte. This holds for every schedule in which the remote serves
-- what the workers ask for, whatever seeks and writes of the temp file fail, if the closing of that
-- file writes out what its buffer holds, and every body of fewer than 2^64 bytes for the single stream
-- that is the remote's so far.
pub download_chunked_fresh :
    (content : ℕ → ℕ) (a : ChunkedAnswers) (n : ℕ) (store : Store) (url : Text) (threads : ℕ)
    (p : Progress) (f : FileData)
    → a.session ≡ true
    → a.probe ≡ some n
    → 0 < n
    → n + download_chunk_size ≤ u64_mod
    → store.state ≡ none
    → ensure_sized_temp_file a store.tmp n ≡ ready f
    → ((s : ChunkState)
        → initial_state url n none ≡ some s
        → AllFair content n
            (configure threads n)
            (start_workers (shared_of (close_full_chunks s) f))
            a.schedule)
    → a.close_lost ≡ none
    → AllMatch content 0 a.fallback.blocks
    → delivered a.fallback.blocks < u64_mod
    → (r : ChunkedResult) × (download_chunked a store url threads p ≡ some r)
      × (r.ok ≡ true → IsRemote content n r.store.target)
unfolding initial_state
download_chunked_fresh content a n store url threads p f there probe pos room state sized fair
      closed m small =
    let (s, made, _, _, _, tiles, fresh) =
      initialize-Tiles url n download_chunk_size pos (omega arith) room in
    let loaded : initial_state url n store.state ≡ some s = rw state made in
    download_chunked_sound content a n store url threads p s f there probe pos loaded sized
      (fresh-SharedOk content n s f tiles (omega arith) fresh (ensure-size a store.tmp n f sized))
      (fair s made) closed m small
