-- ===== src/Chunked.antt =====
-- `DownloadFileChunkedWithResume` of RebornLauncher/ChunkDownload.cpp, and `EnsureSizedTempFile` of
-- ChunkState.cpp. A state file is kept as the state that it encodes (`none`: it is missing, or
-- `LoadFromJson` refuses it); a save by a worker that fails leaves the earlier one.
pub mod Stale
pub mod Sound
use reborn_launcher.Base.{
  ℕ, ◌*◌, ◌%◌, min, Bool, true, false, not, ◌&&◌, ◌||◌, List, [], ◌∷◌, Option, none, some, map, ltb,
  leb, ◌==◌, if◌then◌else◌, text_eq, Text,
}
use reborn_launcher.Files.{FileData, empty_file, zero_file}
use reborn_launcher.Chunk.{
  ChunkRecord, ChunkState, chunk_length, compute_downloaded_bytes, are_all_chunks_done, is_empty,
  initialize,
}
use reborn_launcher.Executor.{
  Shared, stream_file, Input, Config, System, configure, run_schedule, start_workers,
}
use reborn_launcher.SingleStream.{Progress, to_int, set_size, Answers, Downloaded, single_stream}

-- The files of one download: the target, `.tmp` and `.chunks.json`.
pub record Store : Type 0 where
  pub target : Option FileData
  pub tmp : Option FileData
  pub state : Option ChunkState

-- How `SaveToJson` ends: the new file stands, the earlier one does, or none.
pub data Save : Type 0 where
  stored kept lost : Save

-- What the libraries and the system answer. `schedule` is what the workers do; one that leaves a
-- worker running stands for no whole run, since `Run` joins its threads. `close_lost` is the file that
-- the closing of the stream leaves, where that fails (`none`: all of the buffer is written).
pub record ChunkedAnswers : Type 0 where
  pub session : Bool
  pub probe : Option ℕ
  pub tmp_size_ok : Bool
  pub tmp_removed : Bool
  pub tmp_opens : Bool
  pub tmp_written : Bool
  pub first_save : Save
  pub stream_opens : Bool
  pub schedule : List (ℕ × Input)
  pub close_lost : Option FileData
  pub last_save : Save
  pub fallback : Answers
  pub fallback_size_ok : Bool
  pub tmp_cleared : Bool
  pub state_cleared : Bool
  pub old_removed : Bool
  pub renamed : Bool
  pub final_size_ok : Bool

pub record ChunkedResult : Type 0 where
  pub ok : Bool
  pub store : Store
  pub progress : Progress

abbrev pub download_chunk_size : ℕ
download_chunk_size = 8 * 1024 * 1024

-- `EnsureSizedTempFile`: a file of the wanted size, or the failure and what it leaves.
pub data Prepared : Type 0 where
  ready : FileData → Prepared
  unready : Option FileData → Prepared

create_tmp : ChunkedAnswers → Option FileData → ℕ → Prepared
create_tmp a before size =
    if not a.tmp_opens
    then unready before
    else if ltb 0 size && not a.tmp_written
    then unready (some empty_file)
    else ready (zero_file size)

unfoldable pub ensure_sized_temp_file : ChunkedAnswers → Option FileData → ℕ → Prepared
unfolding create_tmp
ensure_sized_temp_file a none size = create_tmp a none size
ensure_sized_temp_file a (some f) size =
    if a.tmp_size_ok && f.size == size
    then ready f
    else create_tmp a (if a.tmp_removed then none else some f) size

-- `stateMismatch`, for a state that was loaded.
matches_remote : Text → ℕ → ChunkState → Bool
unfolding is_empty
matches_remote url remote s =
    text_eq s.url url
    && s.file_size == remote
    && s.chunk_size == download_chunk_size
    && not (is_empty s.chunks)

-- The state that the download starts from: the loaded one, or a new one.
unfoldable pub initial_state : Text → ℕ → Option ChunkState → Option ChunkState
unfolding matches_remote
initial_state url remote none = initialize url remote download_chunk_size
initial_state url remote (some s) =
    if matches_remote url remote s then some s else initialize url remote download_chunk_size

-- The loop that closes the chunks which have all of their bytes.
close_full : ChunkRecord → ChunkRecord
close_full c =
    if leb (chunk_length c) c.downloaded
    then record c { downloaded = chunk_length c; done = true }
    else c

close_all : List ChunkRecord → List ChunkRecord
unfolding close_full
close_all [] = []
close_all (c ∷ cs) = close_full c ∷ close_all cs

unfoldable pub close_full_chunks : ChunkState → ChunkState
unfolding close_all
close_full_chunks s = record s { chunks = close_all s.chunks }

save : Save → Store → ChunkState → Store
save stored store s = record store { state = some s }
save kept store s = store
save lost store s = record store { state = none }

-- What the executor works on.
abbrev pub shared_of : ChunkState → FileData → Shared
shared_of s tmp = record {
  chunks = s.chunks;
  file = tmp.byte;
  extent = tmp.size;
  lost = none;
  failed = false;
  total = compute_downloaded_bytes s;
  progress = min (compute_downloaded_bytes s) s.file_size;
  saved = none;
}

-- The store after the workers, before and after the last `PersistState`.
saved_by_workers : Option (List ChunkRecord) → ChunkState → Store → Store
saved_by_workers none s store = store
saved_by_workers (some cs) s store = record store { state = some (record s { chunks = cs }) }

-- `tmpFile.close()`, whose failure nobody looks at.
unfoldable pub close_tmp : Option FileData → Shared → FileData
unfolding stream_file
close_tmp none shared = stream_file shared
close_tmp (some f) shared = f

after_workers : ChunkedAnswers → Store → ChunkState → Shared → Store
unfolding save saved_by_workers close_tmp
after_workers a store s shared =
    let store' = saved_by_workers shared.saved s store in
    save a.last_save (record store' { tmp = some (close_tmp a.close_lost shared) })
      (record s { chunks = shared.chunks })

file_size_is : Option FileData → ℕ → Bool
file_size_is none n = false
file_size_is (some f) n = f.size == n

-- The workers failed: a single-stream download of the whole file.
unfoldable pub fall_back : ChunkedAnswers → Store → ℕ → ChunkedResult
unfolding file_size_is
fall_back a store remote =
    let r = single_stream a.fallback store.target (record { size = to_int remote; done = 0 }) in
    if not r.ok || not (a.fallback_size_ok && file_size_is r.target remote)
    then record { ok = false; store = record store { target = r.target }; progress = r.progress }
    else record {
      ok = true;
      store = record {
        target = r.target;
        tmp = if a.tmp_cleared then none else store.tmp;
        state = if a.state_cleared then none else store.state;
      };
      progress = record { size = r.progress.size; done = to_int remote };
    }

-- The workers ended without failure: the temp file becomes the target.
unfoldable pub finish_chunked : ChunkedAnswers → Store → ChunkState → ℕ → Progress → ChunkedResult
unfolding file_size_is
finish_chunked a store s remote p =
    if not (are_all_chunks_done s)
    then record { ok = false; store = store; progress = p }
    else if not a.renamed
    then record {
      ok = false;
      store = record store { target = if a.old_removed then none else store.target };
      progress = p;
    }
    else let store' = record store { target = store.tmp; tmp = none } in
      if not (a.final_size_ok && file_size_is store.tmp remote)
      then record { ok = false; store = store'; progress = p }
      else record {
        ok = true;
        store = store';
        progress = record { size = p.size; done = to_int remote };
      }

-- What follows the executor, by its verdict.
unfoldable pub workers_done : ChunkedAnswers → Store → ChunkState → ℕ → Shared → ChunkedResult
unfolding after_workers
workers_done a store s remote shared =
    if shared.failed
    then fall_back a (after_workers a store s shared) remote
    else finish_chunked a (after_workers a store s shared) (record s { chunks = shared.chunks })
        remote (record { size = to_int remote; done = to_int shared.progress })

-- From the prepared temp file on.
unfoldable pub run_workers :
    ChunkedAnswers → Store → ChunkState → FileData → ℕ → ℕ → Progress → ChunkedResult
unfolding save workers_done
run_workers a store s tmp threads remote p =
    if not a.stream_opens
    then record { ok = false; store = save a.first_save store s; progress = p }
    else workers_done a (save a.first_save store s) s remote
        (run_schedule (configure threads remote) (start_workers (shared_of s tmp))
          a.schedule).shared

prepare : ChunkedAnswers → Store → ChunkState → ℕ → ℕ → Progress → Prepared → ChunkedResult
unfolding run_workers
prepare a store s threads remote p (unready left) = record {
  ok = false;
  store = record store { tmp = left };
  progress = p;
}
prepare a store s threads remote p (ready tmp) =
    run_workers a (record store { tmp = some tmp }) s tmp threads remote p

with_state : ChunkedAnswers → Store → ℕ → ℕ → Progress → Option ChunkState → Option ChunkedResult
unfolding prepare ensure_sized_temp_file close_full_chunks
with_state a store threads remote p none = none
with_state a store threads remote p (some s) = some (
    prepare a store (close_full_chunks s) threads remote p
      (ensure_sized_temp_file a store.tmp remote))

with_size : ChunkedAnswers → Store → Text → ℕ → Progress → Option ℕ → Option ChunkedResult
unfolding with_state initial_state
with_size a store url threads p none = some (record { ok = false; store = store; progress = p })
with_size a store url threads p (some remote) =
    if remote == 0
    then some (record { ok = false; store = store; progress = p })
    else with_state a store threads remote (set_size p remote)
        (initial_state url remote store.state)

-- A download of `url` with so many threads. `none`: the loop of `Initialize` does not end.
unfoldable pub download_chunked :
    ChunkedAnswers → Store → Text → ℕ → Progress → Option ChunkedResult
unfolding with_size
download_chunked a store url threads p =
    if not a.session
    then some (record { ok = false; store = store; progress = p })
    else with_size a store url threads p a.probe
