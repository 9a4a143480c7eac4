-- ===== src/Tests/Chunks.antt =====
-- Runs of the chunk state (ChunkState.cpp).
use reborn_launcher.Base.{ℕ, ◌≡◌, ◌≤◌, ◌↔◌, refl, false, [], ◌∷◌, some, arith, All}
use reborn_launcher.Chunk.{
  ChunkRecord, ChunkState, chunk_length, compute_downloaded_bytes, are_all_chunks_done, initialize,
}
use reborn_launcher.Chunk.Tiling.{
  Tiles, IsFresh, IsFull, initialize-Tiles, compute_downloaded_bytes-le,
}

abbrev pub piece : ℕ → ℕ → ℕ → ChunkRecord
piece start end downloaded = record {
  start = start;
  end = end;
  downloaded = downloaded;
  done = false;
}

abbrev ten_bytes : ChunkState
ten_bytes = record {
  url = [];
  file_size = 10;
  chunk_size = 4;
  chunks = piece 0 3 4 ∷ piece 4 7 9 ∷ piece 8 9 1 ∷ [];
}

initialize_ten :
    initialize [] 10 4
    ≡ some (record ten_bytes { chunks = piece 0 3 0 ∷ piece 4 7 0 ∷ piece 8 9 0 ∷ [] })
unfolding initialize
initialize_ten = refl

initialize_empty : initialize [] 0 4 ≡ some (record ten_bytes { file_size = 0; chunks = [] })
unfolding initialize
initialize_empty = refl

bytes_ten : compute_downloaded_bytes ten_bytes ≡ 9
unfolding compute_downloaded_bytes chunk_length
bytes_ten = refl

done_ten : are_all_chunks_done ten_bytes ≡ false
unfolding are_all_chunks_done
done_ten = refl

initialize-Tiles_example :
    (s : ChunkState) × (initialize [] 10 4 ≡ some s)
    × (s.url ≡ [])
    × (s.file_size ≡ 10)
    × (s.chunk_size ≡ 4)
    × Tiles 0 10 s.chunks
    × All (IsFresh 4) s.chunks
initialize-Tiles_example = initialize-Tiles [] 10 4 (omega arith) (omega arith) (omega arith)

compute_downloaded_bytes-le_example :
    (compute_downloaded_bytes ten_bytes ≤ 10)
    × ((compute_downloaded_bytes ten_bytes ≡ 10) ↔ All IsFull ten_bytes.chunks)
compute_downloaded_bytes-le_example =
    compute_downloaded_bytes-le ten_bytes (omega arith) (omega arith)
