-- ===== src/Executor/Invariant.antt =====
-- What holds of the workers and of the temp file while the remote serves the bytes that it is asked
-- for: the vocabulary of the proofs about ChunkExecutor.cpp.
use reborn_launcher.Base.{
  ℕ, ◌+◌, ◌-◌, ◌%◌, ◌≤◌, ◌<◌, ◌≡◌, ◌≢◌, ◌⊎◌, true, some, length, get_elem?, u64_mod,
}
use reborn_launcher.Chunk.{ChunkRecord}
use reborn_launcher.Chunk.Tiling.{Tiles}
use reborn_launcher.Files.Writes.{Matches}
use reborn_launcher.Executor.{
  Shared, Cursor, Phase, stopped, receiving, committing, saving, Worker, Input, block, Config,
  System,
}

-- The bytes of a chunk that count as downloaded are the remote's; a closed chunk has all of them.
pub record IsGood (content file : ℕ → ℕ) (c : ChunkRecord) : Type 0 where
  pub bounded : c.downloaded ≤ c.end - c.start + 1
  pub closed : c.done ≡ true → c.downloaded ≡ c.end - c.start + 1
  pub bytes : (o : ℕ) → c.start ≤ o → o < c.start + c.downloaded → file o ≡ content o

-- The cursor of an open request continues the chunk.
pub record IsAligned (s : Shared) (index : ℕ) (cur : Cursor) : Type 0 where
  pub chunk : ChunkRecord
  pub at_index : get_elem? s.chunks index ≡ some chunk
  pub offset_is : cur.offset ≡ chunk.start + chunk.downloaded
  pub last_is : cur.last ≡ chunk.end
  pub size_is : cur.size ≡ chunk.end - chunk.start + 1

-- `n` bytes are written from the cursor on, and not yet counted.
pub record IsWritten (content : ℕ → ℕ) (s : Shared) (cur : Cursor) (n : ℕ) : Type 0 where
  pub fits : cur.offset + n ≤ cur.last + 1
  pub written : (o : ℕ) → cur.offset ≤ o → o < cur.offset + n → s.file o ≡ content o

-- What each phase knows of the worker's chunk.
abbrev pub PhaseOk : (ℕ → ℕ) → Shared → ℕ → Phase → Type 0
PhaseOk content s index (receiving cur) = IsAligned s index cur
PhaseOk content s index (committing cur n) = IsAligned s index cur × IsWritten content s cur n
PhaseOk content s index (saving chunks next) = PhaseOk content s index next
PhaseOk content s index stopped = (s.failed ≡ true) ⊎ (length s.chunks ≤ index)
PhaseOk content s index _ = Unit

-- Worker `t` stays in its lane, and leaves closed chunks behind.
pub record WorkerOk (content : ℕ → ℕ) (cfg : Config) (s : Shared) (t : ℕ) (w : Worker)
    : Type 0 where
  pub lane : w.index % cfg.threads ≡ t
  pub passed :
      (j : ℕ) (c : ChunkRecord)
      → j < w.index
      → j % cfg.threads ≡ t
      → get_elem? s.chunks j ≡ some c
      → c.done ≡ true
  pub phase_ok : PhaseOk content s w.index w.phase

pub record SharedOk (content : ℕ → ℕ) (n : ℕ) (s : Shared) : Type 0 where
  pub tiles : Tiles 0 n s.chunks
  pub small : n < u64_mod
  pub sized : s.extent ≡ n
  pub good : (j : ℕ) (c : ChunkRecord) → get_elem? s.chunks j ≡ some c → IsGood content s.file c

pub record Inv (content : ℕ → ℕ) (n : ℕ) (cfg : Config) (sys : System) : Type 0 where
  pub shared_ok : SharedOk content n sys.shared
  pub own : (t : ℕ) → t < cfg.threads → WorkerOk content cfg sys.shared t (sys.workers t)

-- The worker of chunk `i` may change that chunk, and the file only where the chunk is still open.
pub record Guarantee (s s' : Shared) (i : ℕ) : Type 0 where
  pub count : length s'.chunks ≡ length s.chunks
  pub others : (j : ℕ) → i ≢ j → get_elem? s'.chunks j ≡ get_elem? s.chunks j
  pub file_others :
      (o : ℕ)
      → ((c : ChunkRecord)
          → get_elem? s.chunks i ≡ some c
          → (o < c.start + c.downloaded) ⊎ (c.end < o))
      → s'.file o ≡ s.file o
  pub stays_failed : s.failed ≡ true → s'.failed ≡ true
  pub stays_done :
      (c' : ChunkRecord)
      → get_elem? s'.chunks i ≡ some c'
      → ((c : ChunkRecord) → get_elem? s.chunks i ≡ some c → c.done ≡ true)
      → c'.done ≡ true

-- A block for an open request lies in the requested range, and holds the remote's bytes.
abbrev pub IsHonest : (ℕ → ℕ) → Phase → Input → Type 0
IsHonest content (receiving cur) (block bytes disk) =
    (cur.offset + length bytes ≤ cur.last + 1) × Matches content cur.offset bytes
IsHonest content _ _ = Unit
