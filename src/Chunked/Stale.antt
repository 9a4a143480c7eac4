-- ===== src/Chunked/Stale.antt =====
-- A state file that outlives its temp file (ChunkDownload.cpp). A chunked download that succeeds
-- renames the temp file and leaves the state file, with every chunk closed.
use reborn_launcher.Base.{
  text_eq_iff, text_eq, ◌==◌, ℕ, ◌<◌, ◌≡◌, refl, ◌∙◌, true, false, List, [], ◌∷◌, Option, none,
  some, arith, All, Text,
}
use reborn_launcher.Files.{zero_file}
use reborn_launcher.Chunk.{ChunkRecord, ChunkState, all_done, are_all_chunks_done, is_empty}
use reborn_launcher.Executor.{Shared, configure, stream_file}
use reborn_launcher.Executor.Idle.{run_schedule_idle}
use reborn_launcher.SingleStream.{Progress, set_size}
use reborn_launcher.Chunked.{
  close_tmp, workers_done, saved_by_workers, save, file_size_is, after_workers, Store,
  ChunkedAnswers, ChunkedResult, ready, download_chunk_size, create_tmp, ensure_sized_temp_file,
  matches_remote, initial_state, close_full, close_all, close_full_chunks, shared_of,
  finish_chunked, run_workers, prepare, with_state, with_size, download_chunked,
}

-- Each call of the system that the download makes goes well.
pub record GoesWell (a : ChunkedAnswers) : Type 0 where
  pub session : a.session ≡ true
  pub tmp_opens : a.tmp_opens ≡ true
  pub tmp_written : a.tmp_written ≡ true
  pub stream_opens : a.stream_opens ≡ true
  pub close_lost : a.close_lost ≡ none
  pub renamed : a.renamed ≡ true
  pub final_size_ok : a.final_size_ok ≡ true

close_all-done :
    (cs : List ChunkRecord) → All (λ c. c.done ≡ true) cs → All (λ c. c.done ≡ true) (close_all cs)
unfolding close_all close_full
close_all-done [] h = tt
close_all-done (c ∷ cs) h = (ground arith, close_all-done cs h.1)

all_done_lem : (cs : List ChunkRecord) → All (λ c. c.done ≡ true) cs → all_done cs ≡ true
unfolding all_done
all_done_lem [] h = refl
all_done_lem (c ∷ cs) h = ground (arith, all_done_lem cs h.1)

close_all-is_empty : (cs : List ChunkRecord) → is_empty (close_all cs) ≡ is_empty cs
unfolding close_all is_empty
close_all-is_empty [] = refl
close_all-is_empty (c ∷ cs) = refl

module _ (a : ChunkedAnswers) (well : GoesWell a) (remote : ℕ) where
  finish-stale :
      (st : Store) (c : ChunkState) (q : Progress)
      → All (λ c. c.done ≡ true) c.chunks
      → is_empty c.chunks ≡ false
      → st.tmp ≡ some (zero_file remote)
      → ((finish_chunked a st c remote q).ok ≡ true)
        × ((finish_chunked a st c remote q).store.target ≡ some (zero_file remote))
  unfolding finish_chunked are_all_chunks_done file_size_is
  finish-stale st c q h e t =
      ground (arith, all_done_lem c.chunks h, well.renamed, well.final_size_ok)

  after_workers-tmp :
      (st : Store) (c : ChunkState) (sh : Shared)
      → sh.lost ≡ none
      → (after_workers a st c sh).tmp ≡ some (record { size = sh.extent; byte = sh.file })
  unfolding after_workers save saved_by_workers close_tmp stream_file
  after_workers-tmp st c sh fine = ground (arith, well.close_lost)

  workers_done-stale :
      (st : Store) (c : ChunkState)
      → All (λ c. c.done ≡ true) c.chunks
      → is_empty c.chunks ≡ false
      → let r = workers_done a st c remote (shared_of c (zero_file remote)) in
        (r.ok ≡ true) × (r.store.target ≡ some (zero_file remote))
  unfolding workers_done
  workers_done-stale st c h e =
      finish-stale (after_workers a st c (shared_of c (zero_file remote))) c _ h e
        (after_workers-tmp st c (shared_of c (zero_file remote)) refl)

  run_workers-stale :
      (st : Store) (c : ChunkState) (threads : ℕ) (q : Progress)
      → All (λ c. c.done ≡ true) c.chunks
      → is_empty c.chunks ≡ false
      → let r = run_workers a st c (zero_file remote) threads remote q in
        (r.ok ≡ true) × (r.store.target ≡ some (zero_file remote))
  unfolding run_workers
  run_workers-stale st c threads q h e =
      simp
        (
          well.stream_opens,
          run_schedule_idle (configure threads remote) (shared_of c (zero_file remote)) h
              a.schedule,
        )
        (workers_done-stale (save a.first_save st c) c h e)

  ensure-ready : ensure_sized_temp_file a none remote ≡ ready (zero_file remote)
  unfolding ensure_sized_temp_file create_tmp
  ensure-ready = ground (arith, well.tmp_opens, well.tmp_written)

pub loads :
    (url : Text) (remote : ℕ) (stored : Option ChunkState) (s : ChunkState)
    → stored ≡ some s
    → s.url ≡ url
    → s.file_size ≡ remote
    → s.chunk_size ≡ download_chunk_size
    → is_empty s.chunks ≡ false
    → initial_state url remote stored ≡ some s
unfolding initial_state matches_remote
loads url remote stored s e u f k m =
    let same : text_eq s.url url ≡ true = (text_eq_iff s.url url).1 u in rw e (ground arith)

download-eq :
    (a : ChunkedAnswers)
    → GoesWell a
    → (store : Store) (url : Text) (threads : ℕ) (p : Progress) (remote : ℕ) → a.probe ≡ some remote
    → 0 < remote
    → store.tmp ≡ none
    → (s : ChunkState) → initial_state url remote store.state ≡ some s
    → download_chunked a store url threads p
      ≡ some (
          run_workers a
            (record store { tmp = some (zero_file remote) })
            (close_full_chunks s)
            (zero_file remote)
            threads
            remote
            (set_size p remote))
unfolding download_chunked with_size with_state prepare
download-eq a well store url threads p remote probe pos tmp s loaded =
    let positive : (remote == 0) ≡ false = ground arith in
    simp (well.session, probe, positive, loaded, tmp, ensure-ready a well remote)

-- If the state file names the same URL, the same sizes and only closed chunks, at least one, and the
-- temp file is gone, then a chunked download for which each call of the system goes well returns true
-- whatever the workers' schedule and the remote are, and leaves a target of the right size in which
-- every byte is 0.
pub stale_state_zeroes :
    (a : ChunkedAnswers) (store : Store) (url : Text) (threads : ℕ) (p : Progress) (s : ChunkState)
    (remote : ℕ)
    → GoesWell a
    → a.probe ≡ some remote
    → 0 < remote
    → store.tmp ≡ none
    → store.state ≡ some s
    → s.url ≡ url
    → s.file_size ≡ remote
    → s.chunk_size ≡ download_chunk_size
    → is_empty s.chunks ≡ false
    → All (λ c. c.done ≡ true) s.chunks
    → (r : ChunkedResult) × (download_chunked a store url threads p ≡ some r)
      × (r.ok ≡ true)
      × (r.store.target ≡ some (zero_file remote))
unfolding download_chunked
stale_state_zeroes a store url threads p s remote well probe pos tmp state same_url same_size
      same_chunk some_chunks closed =
    let c = close_full_chunks s in
    let loaded : initial_state url remote store.state ≡ some s =
      loads url remote store.state s state same_url same_size same_chunk some_chunks in
    let (ok, zeroes) =
      run_workers-stale a well remote _ c threads (set_size p remote)
        (close_all-done s.chunks closed) (close_all-is_empty s.chunks ∙ some_chunks) in
    (
      run_workers a (record store { tmp = some (zero_file remote) }) c (zero_file remote) threads
          remote (set_size p remote),
      download-eq a well store url threads p remote probe pos tmp s loaded,
      ok,
      zeroes,
    )
