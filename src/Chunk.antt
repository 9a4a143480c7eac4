-- ===== src/Chunk.antt =====
-- RebornLauncher/ChunkState.h and ChunkState.cpp: the resume state of a chunked download.
pub mod Tiling
use reborn_launcher.Base.{
  ℕ, zero, suc, ◌+◌, ◌-◌, ◌%◌, ◌≤◌, min, Bool, true, false, not, ◌||◌, ◌&&◌, List, [], ◌∷◌, Option,
  none, some, leb, ltb, ◌==◌, if◌then◌else◌, Text, u64_mod,
}

pub record ChunkRecord : Type 0 where
  pub start : ℕ
  pub end : ℕ
  pub downloaded : ℕ
  pub done : Bool

pub record ChunkState : Type 0 where
  pub url : Text
  pub file_size : ℕ
  pub chunk_size : ℕ
  pub chunks : List ChunkRecord

-- `chunk.end >= chunk.start ? (chunk.end - chunk.start + 1) : 0`, in 64 bits.
unfoldable pub chunk_length : ChunkRecord → ℕ
chunk_length c = if leb c.start c.end then (c.end - c.start + 1) % u64_mod else 0

-- `ComputeDownloadedBytes`, whose loop adds in 64 bits.
sum_downloaded : ℕ → List ChunkRecord → ℕ
sum_downloaded total [] = total
sum_downloaded total (c ∷ cs) =
    sum_downloaded ((total + min c.downloaded (chunk_length c)) % u64_mod) cs

unfoldable pub compute_downloaded_bytes : ChunkState → ℕ
unfolding sum_downloaded
compute_downloaded_bytes s = sum_downloaded 0 s.chunks

unfoldable pub all_done : List ChunkRecord → Bool
all_done [] = true
all_done (c ∷ cs) = c.done && all_done cs

unfoldable pub is_empty : List ChunkRecord → Bool
is_empty [] = true
is_empty (_ ∷ _) = false

-- `AreAllChunksDone`: a state without chunks is not done.
unfoldable pub are_all_chunks_done : ChunkState → Bool
unfolding all_done is_empty
are_all_chunks_done s = all_done s.chunks && not (is_empty s.chunks)

-- A record in front of those that the later rounds make.
abbrev push_chunk : ChunkRecord → Option (List ChunkRecord) → Option (List ChunkRecord)
push_chunk c none = none
push_chunk c (some cs) = some (c ∷ cs)

-- The loop of `Initialize` from `begin`; `begin += chunkSize` wraps. `none`: the fuel ran out.
fill_chunks : ℕ → ℕ → ℕ → ℕ → Option (List ChunkRecord)
fill_chunks zero file_size chunk_size begin = none
fill_chunks (suc fuel) file_size chunk_size begin =
    let rest = fill_chunks fuel file_size chunk_size ((begin + chunk_size) % u64_mod) in
    if ltb begin file_size
    then push_chunk
        (record {
          start = begin;
          end = min (file_size - 1) ((begin + chunk_size + u64_mod - 1) % u64_mod);
          downloaded = 0;
          done = false;
        })
        rest
    else some []

abbrev with_chunks : Text → ℕ → ℕ → Option (List ChunkRecord) → Option ChunkState
with_chunks url file_size chunk_size none = none
with_chunks url file_size chunk_size (some cs) =
    some (record { url = url; file_size = file_size; chunk_size = chunk_size; chunks = cs })

-- `Initialize`. The loop makes at most `file_size` rounds if it ends at all.
unfoldable pub initialize : Text → ℕ → ℕ → Option ChunkState
unfolding fill_chunks
initialize url file_size chunk_size =
    if file_size == 0 || chunk_size == 0
    then with_chunks url file_size chunk_size (some [])
    else with_chunks url file_size chunk_size (fill_chunks (suc file_size) file_size chunk_size 0)
