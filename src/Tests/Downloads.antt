-- ===== src/Tests/Downloads.antt =====
-- Runs of the two downloads (ChunkDownload.cpp).
use reborn_launcher.Base.{
  subst, ℕ, zero, suc, ◌≡◌, sym, ◌∙◌, ◌<◌, ◌+◌, refl, true, false, List, [], ◌∷◌, some, none, arith,
  get_elem?,
}
use reborn_launcher.Files.{FileData, zero_file}
use reborn_launcher.Chunk.{is_empty, chunk_length, ChunkRecord, ChunkState, initialize}
use reborn_launcher.Executor.{
  Input, runs, block, reply, stored, run_schedule, start_workers, configure,
}
use reborn_launcher.Executor.Invariant.{IsGood, SharedOk}
use reborn_launcher.Executor.Safety.{AllFair}
use reborn_launcher.SingleStream.{Progress, Answers, single_stream}
use reborn_launcher.SingleStream.Sound.{single_stream_sound}
use reborn_launcher.Chunked.{
  Store, ChunkedAnswers, ChunkedResult, kept, download_chunk_size, download_chunked,
  ensure_sized_temp_file, initial_state, close_full_chunks, shared_of,
}
use reborn_launcher.Chunked.Stale.{loads, stale_state_zeroes}
use reborn_launcher.Chunked.Sound.{IsRemote, download_chunked_sound, download_chunked_fresh}

abbrev remote : ℕ → ℕ
remote o = o + 7

abbrev idle : Progress
idle = record { size = 0; done = 0 }

abbrev two_blocks : Answers
two_blocks = record {
  session = true;
  probe = some 3;
  parent_ok = true;
  open_ok = true;
  blocks = (7 ∷ 8 ∷ [], none) ∷ (9 ∷ [], none) ∷ [];
  status = some 200;
  response_total = 3;
  lost = 0;
  size_ok = true;
}

single_stream_sound_example :
    (f : FileData) × ((single_stream two_blocks none idle).target ≡ some f)
    × (f.size ≡ 3)
    × ((n : ℕ) → some 3 ≡ some n → 0 < n → f.size ≡ n)
    × ((o : ℕ) → o < f.size → f.byte o ≡ remote o)
unfolding single_stream
single_stream_sound_example =
    single_stream_sound remote two_blocks none idle ((refl, (refl, tt)), ((refl, tt), tt))
      (omega arith) refl

abbrev calm : List (ℕ × Input) → ChunkedAnswers
calm moves = record {
  session = true;
  probe = some 2;
  tmp_size_ok = true;
  tmp_removed = true;
  tmp_opens = true;
  tmp_written = true;
  first_save = kept;
  stream_opens = true;
  schedule = moves;
  close_lost = none;
  last_save = kept;
  fallback = record two_blocks { blocks = [] };
  fallback_size_ok = true;
  tmp_cleared = true;
  state_cleared = true;
  old_removed = true;
  renamed = true;
  final_size_ok = true;
}

abbrev address : List ℕ
address = 104 ∷ 116 ∷ []

abbrev state_of : ChunkRecord → ChunkState
state_of c = record {
  url = address;
  file_size = 2;
  chunk_size = download_chunk_size;
  chunks = c ∷ [];
}

abbrev closed_state : ChunkState
closed_state = state_of (record { start = 0; end = 1; downloaded = 2; done = true })

abbrev left_over : Store
left_over = record { target = none; tmp = none; state = some closed_state }

stale_state_zeroes_example :
    (r : ChunkedResult) × (download_chunked (calm []) left_over address 4 idle ≡ some r)
    × (r.ok ≡ true)
    × (r.store.target ≡ some (zero_file 2))
unfolding is_empty
stale_state_zeroes_example =
    stale_state_zeroes (calm []) left_over address 4 idle closed_state 2
      (record {
        session = refl;
        tmp_opens = refl;
        tmp_written = refl;
        stream_opens = refl;
        close_lost = refl;
        renamed = refl;
        final_size_ok = refl;
      })
      refl (omega arith) refl refl refl refl refl refl (refl, tt)

-- One worker that fetches the rest of the only chunk.
abbrev fetch : List ℕ → List (ℕ × Input)
fetch bytes =
    (0, runs true)
    ∷ (0, runs true)
    ∷ (0, block bytes stored)
    ∷ (0, runs true)
    ∷ (0, reply (some 206))
    ∷ (0, runs true)
    ∷ (0, runs true)
    ∷ (0, runs true)
    ∷ (0, runs true)
    ∷ []

abbrev half_state : ChunkState
half_state = state_of (record { start = 0; end = 1; downloaded = 1; done = false })

abbrev half_file : FileData
half_file = record { size = 2; byte = λ _. 7 }

abbrev half_way : Store
half_way = record { target = none; tmp = some half_file; state = some half_state }

half_way-IsGood :
    (j : ℕ) (c : ChunkRecord)
    → get_elem? half_state.chunks j ≡ some c
    → IsGood remote half_file.byte c
half_way-IsGood zero c e = record {
  bounded = ground arith;
  closed = ground arith;
  bytes = λ o lo hi. ground arith;
}
half_way-IsGood (suc j) c e = cc

half_way-SharedOk : SharedOk remote 2 (shared_of (close_full_chunks half_state) half_file)
unfolding close_full_chunks chunk_length
half_way-SharedOk = record {
  tiles = omega arith;
  small = omega arith;
  sized = refl;
  good = half_way-IsGood;
}

half_way_loads : initial_state address 2 half_way.state ≡ some half_state
unfolding is_empty
half_way_loads = loads address 2 half_way.state half_state refl refl refl refl refl

rest_fair :
    AllFair remote 2
      (configure 1 2)
      (start_workers (shared_of (close_full_chunks half_state) half_file))
      (fetch (8 ∷ []))
unfolding close_full_chunks chunk_length run_schedule start_workers configure
rest_fair = omega arith

download_chunked_sound_example :
    (r : ChunkedResult) × (download_chunked (calm (fetch (8 ∷ []))) half_way address 1 idle
      ≡ some r)
    × (r.ok ≡ true → IsRemote remote 2 r.store.target)
unfolding ensure_sized_temp_file
download_chunked_sound_example =
    download_chunked_sound remote (calm (fetch (8 ∷ []))) 2 half_way address 1 idle half_state
      half_file refl refl (omega arith) half_way_loads refl half_way-SharedOk rest_fair refl tt
      (omega arith)

abbrev empty_place : Store
empty_place = record { target = none; tmp = none; state = none }

abbrev new_state : ChunkState
new_state = state_of (record { start = 0; end = 1; downloaded = 0; done = false })

new_state-AllFair :
    AllFair remote 2
      (configure 1 2)
      (start_workers (shared_of (close_full_chunks new_state) (zero_file 2)))
      (fetch (7 ∷ 8 ∷ []))
unfolding close_full_chunks chunk_length run_schedule start_workers configure
new_state-AllFair = omega arith

made_new : initialize address 2 download_chunk_size ≡ some new_state
unfolding initialize
made_new = refl

new_fair :
    (s : ChunkState)
    → initial_state address 2 none ≡ some s
    → AllFair remote 2
        (configure 1 2)
        (start_workers (shared_of (close_full_chunks s) (zero_file 2)))
        (fetch (7 ∷ 8 ∷ []))
unfolding initial_state
new_fair s e =
    let same : new_state ≡ s = (let both : some new_state ≡ some s = sym made_new ∙ e in cc) in
    subst
      (λ s'.
        AllFair remote 2 (configure 1 2)
          (start_workers (shared_of (close_full_chunks s') (zero_file 2))) (fetch (7 ∷ 8 ∷ [])))
      same new_state-AllFair

download_chunked_fresh_example :
    (r : ChunkedResult) × (download_chunked (calm (fetch (7 ∷ 8 ∷ []))) empty_place address 1 idle
      ≡ some r)
    × (r.ok ≡ true → IsRemote remote 2 r.store.target)
unfolding ensure_sized_temp_file
download_chunked_fresh_example =
    download_chunked_fresh remote (calm (fetch (7 ∷ 8 ∷ []))) 2 empty_place address 1 idle
      (zero_file 2) refl refl (omega arith) (omega arith) refl refl new_fair refl tt (omega arith)
