-- ===== src/Executor.antt =====
-- RebornLauncher/ChunkExecutor.cpp: the threads that fetch the chunks of one file. A worker is a
-- machine whose phases are the points of `WorkerLoop` between two critical sections; a schedule says
-- which worker moves next and what the HTTP library and the disk do then.
pub mod Invariant
pub mod Stability
pub mod Steps
pub mod Requests
pub mod Phases
pub mod Idle
pub mod Stuck
pub mod Safety
use reborn_launcher.Base.{
  ℕ, zero, suc, ◌+◌, ◌-◌, ◌%◌, min, max, Bool, true, false, not, ◌&&◌, ◌||◌, List, [], ◌∷◌, Option,
  none, some, length, get_elem?, set, leb, ltb, ◌==◌, if◌then◌else◌, u64_mod,
}
use reborn_launcher.Chunk.{ChunkRecord}
use reborn_launcher.Files.{FileData, write_at}

-- What the workers share: `m_state.chunks`, the temp file's bytes and size, `m_failed`,
-- `m_downloadedTotal`, the progress that the callback stored, and the chunks that were last saved to
-- the state file, if any were. `file` is what the disk and the stream's buffer hold together. `lost`
-- is set by the first seek or write that fails, in the flush of an earlier block too: the file that the
-- disk holds then, whatever it be.
pub record Shared : Type 0 where
  pub chunks : List ChunkRecord
  pub file : ℕ → ℕ
  pub extent : ℕ
  pub lost : Option FileData
  pub failed : Bool
  pub total : ℕ
  pub progress : ℕ
  pub saved : Option (List ChunkRecord)

-- `requestStart`, `requestEnd`, `chunkLength`, `writeOffset` and `receivedThisAttempt`.
pub record Cursor : Type 0 where
  pub first : ℕ
  pub last : ℕ
  pub size : ℕ
  pub offset : ℕ
  pub received : ℕ

pub data Phase : Type 0 where
  head trying leaving stopped : Phase
  receiving : Cursor → Phase
  committing : Cursor → ℕ → Phase
  refused : Cursor → Phase
  saving : List ChunkRecord → Phase → Phase
  judging : Option ℕ → Cursor → Phase

pub record Worker : Type 0 where
  pub index : ℕ
  pub attempt : ℕ
  pub phase : Phase

-- What the stream does with a block: it takes all of it, or the seek or the write fails, which leaves
-- this file on the disk.
pub data Disk : Type 0 where
  stored : Disk
  breaks : FileData → Disk

-- The environment's part in a step: the worker runs on (with the success of a save), the HTTP library
-- hands it a block, or the request ends with this status (`none`: no response). A receiver that
-- returned false is not called again.
pub data Input : Type 0 where
  runs : Bool → Input
  block : List ℕ → Disk → Input
  reply : Option ℕ → Input

-- `m_threadCount` and `m_remoteTotalSize`.
pub record Config : Type 0 where
  pub threads : ℕ
  pub remote_total : ℕ

-- `kChunkMaxAttemptsPerWorker`.
abbrev pub max_attempts : ℕ
max_attempts = 2

-- `MarkFailure`.
abbrev pub mark_failure : Shared → Shared
mark_failure s = record s { failed = true }

abbrev at : Worker → Phase → Worker
at w p = record w { phase = p }

abbrev set_chunk : Shared → ℕ → ChunkRecord → Shared
set_chunk s i c = record s { chunks = set s.chunks i c }

-- The `for` head: stop past the last chunk or after a failure.
pub step_head : Shared → Worker → Shared × Worker
step_head s w =
    if ltb w.index (length s.chunks) && not s.failed
    then (s, record w { attempt = 0; phase = trying })
    else (s, at w stopped)

-- Nothing is missing: close the chunk. Else ask for the rest of it.
pub request_rest : Shared → Worker → ChunkRecord → ℕ → Shared × Worker
request_rest s w c size =
    if leb size c.downloaded
    then (
      set_chunk s w.index (record c { downloaded = size; done = true }),
      at w (saving (set s.chunks w.index (record c { downloaded = size; done = true })) leaving),
    )
    else (
      s,
      at w (
          receiving (record {
            first = (c.start + c.downloaded) % u64_mod;
            last = c.end;
            size = size;
            offset = (c.start + c.downloaded) % u64_mod;
            received = 0;
          })),
    )

-- The attempt's decision on the chunk that it read under the lock.
pub start_attempt : Shared → Worker → ChunkRecord → Shared × Worker
unfolding request_rest
start_attempt s w c =
    if c.done
    then (s, at w leaving)
    else if ltb c.end c.start
    then (mark_failure s, at w stopped)
    else request_rest s w c ((c.end - c.start + 1) % u64_mod)

-- The `while` head, and the read of the chunk.
pub step_trying : Shared → Worker → Shared × Worker
unfolding start_attempt
step_trying s w =
    if ltb w.attempt max_attempts && not s.failed
    then elim (get_elem? s.chunks w.index) [ none ↦ (s, w) | some c ↦ start_attempt s w c ]
    else (s, at w leaving)

-- A block for a stream that is good.
pub store_bytes : Shared → Worker → Cursor → List ℕ → Disk → Shared × Worker
unfolding write_at
store_bytes s w cur bytes stored = (
  record s {
    file = write_at s.file cur.offset bytes;
    extent = max s.extent (cur.offset + length bytes);
  },
  at w (committing cur (length bytes)),
)
store_bytes s w cur bytes (breaks f) = (record s { lost = some f }, at w (refused cur))

-- `m_tmpFile.good()`.
pub is_good : Option FileData → Bool
is_good none = true
is_good (some f) = false

-- What the disk and the stream's buffer hold.
unfoldable pub stream_file : Shared → FileData
stream_file s = elim s.lost [ none ↦ record { size = s.extent; byte = s.file } | some f ↦ f ]

-- The receiver up to the end of its first critical section. A stream that failed stays so.
pub step_block : Shared → Worker → Cursor → List ℕ → Disk → Shared × Worker
unfolding store_bytes is_good
step_block s w cur [] d = (s, w)
step_block s w cur (b ∷ bs) d =
    if is_good s.lost then store_bytes s w cur (b ∷ bs) d else (s, at w (refused cur))

-- The record after `n` more bytes: at most the remaining bytes count, and the last one closes it.
pub committed : Cursor → ChunkRecord → ℕ → ℕ
committed cur c n = min ((cur.size + u64_mod - c.downloaded) % u64_mod) n

pub commit : Cursor → ChunkRecord → ℕ → ChunkRecord
unfolding committed
commit cur c n =
    let downloaded = (c.downloaded + committed cur c n) % u64_mod in
    if leb cur.size downloaded
    then record c { downloaded = cur.size; done = true }
    else record c { downloaded = downloaded }

-- The receiver's second critical section.
pub step_commit : Config → Shared → Worker → Cursor → ℕ → Shared × Worker
unfolding commit
step_commit cfg s w cur n =
    let moved = record cur {
      offset = (cur.offset + n) % u64_mod;
      received = (cur.received + n) % u64_mod;
    } in
    elim (get_elem? s.chunks w.index) [
      | none ↦ (s, w)
      | some c ↦
          let total = (s.total + committed cur c n) % u64_mod in
          (
            record s {
              chunks = set s.chunks w.index (commit cur c n);
              total = total;
              progress = min total cfg.remote_total;
            },
            at w (receiving moved),
          )
    ]

-- After a status that fits: leave with a closed chunk, retry if nothing came, else go on.
pub go_on : Shared → Worker → Cursor → Shared × Worker
go_on s w cur = elim (get_elem? s.chunks w.index) [
  | none ↦ (s, w)
  | some c ↦
      if c.done
      then (s, at w leaving)
      else if cur.received == 0
      then (s, record w { attempt = suc w.attempt; phase = trying })
      else (s, at w trying)
]

-- What follows the request: retry on a bad status, and give up on a whole file for a part.
pub step_judge : Config → Shared → Worker → Option ℕ → Cursor → Shared × Worker
unfolding go_on
step_judge cfg s w none cur = (s, record w { attempt = suc w.attempt; phase = trying })
step_judge cfg s w (some status) cur =
    if not (status == 206 || status == 200)
    then (s, record w { attempt = suc w.attempt; phase = trying })
    else if status == 200 && not (cur.first == 0 && (cur.last + 1) % u64_mod == cfg.remote_total)
    then (mark_failure s, at w stopped)
    else go_on s w cur

-- The end of the loop body, and `chunkIndex += m_threadCount`.
pub step_leave : Config → Shared → Worker → Shared × Worker
step_leave cfg s w = elim (get_elem? s.chunks w.index) [
  | none ↦ (s, w)
  | some c ↦
      if c.done
      then (s, record w { index = w.index + cfg.threads; phase = head })
      else (mark_failure s, at w stopped)
]

unfoldable pub step_in : Config → Shared → Worker → Phase → Input → Shared × Worker
unfolding step_head step_trying step_block step_commit step_judge step_leave
step_in cfg s w head (runs _) = step_head s w
step_in cfg s w trying (runs _) = step_trying s w
step_in cfg s w (receiving cur) (block bytes disk) = step_block s w cur bytes disk
step_in cfg s w (receiving cur) (reply r) = (s, at w (saving s.chunks (judging r cur)))
step_in cfg s w (refused cur) (reply r) = (s, at w (saving s.chunks (judging r cur)))
step_in cfg s w (committing cur n) (runs _) = step_commit cfg s w cur n
step_in cfg s w (saving chunks next) (runs ok) =
    (if ok then record s { saved = some chunks } else s, at w next)
step_in cfg s w (judging r cur) (runs _) = step_judge cfg s w r cur
step_in cfg s w leaving (runs _) = step_leave cfg s w
step_in cfg s w _ _ = (s, w)

unfoldable pub worker_step : Config → Shared → Worker → Input → Shared × Worker
unfolding step_in
worker_step cfg s w input = step_in cfg s w w.phase input

-- The whole executor: worker `t` is `WorkerLoop(t)`.
pub record System : Type 0 where
  pub shared : Shared
  pub workers : ℕ → Worker

abbrev pub replace : (ℕ → Worker) → ℕ → Worker → ℕ → Worker
replace ws t w u = if u == t then w else ws u

unfoldable pub system_step : Config → System → ℕ × Input → System
unfolding worker_step
system_step cfg sys (t, input) =
    let (s, w) = worker_step cfg sys.shared (sys.workers t) input in
    record { shared = s; workers = replace sys.workers t w }

unfoldable pub run_schedule : Config → System → List (ℕ × Input) → System
unfolding system_step
run_schedule cfg sys [] = sys
run_schedule cfg sys (e ∷ es) = run_schedule cfg (system_step cfg sys e) es

-- `Run` makes `max(1, threadCount)` the stride, and starts a worker for each of the first
-- `min(stride, chunks)` numbers.
unfoldable pub configure : ℕ → ℕ → Config
configure thread_count remote_total = record {
  threads = max 1 thread_count;
  remote_total = remote_total;
}

unfoldable pub actual_threads : Config → Shared → ℕ
actual_threads cfg s = min cfg.threads (length s.chunks)

unfoldable pub start_workers : Shared → System
start_workers s = record {
  shared = s;
  workers = λ t. record { index = t; attempt = 0; phase = head };
}
