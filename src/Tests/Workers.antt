-- ===== src/Tests/Workers.antt =====
-- Runs of the download workers (ChunkExecutor.cpp).
use reborn_launcher.Base.{
  ◌⊎◌, ℕ, zero, suc, ◌≡◌, ◌<◌, ◌+◌, refl, true, false, List, [], ◌∷◌, some, none, arith, get_elem?,
}
use reborn_launcher.Chunk.{ChunkRecord}
use reborn_launcher.Executor.{
  stream_file, Shared, Config, Input, runs, block, reply, stored, System, stopped, run_schedule,
  actual_threads, start_workers,
}
use reborn_launcher.Executor.Invariant.{IsGood, SharedOk}
use reborn_launcher.Executor.Stuck.{IsShort}
use reborn_launcher.Executor.Safety.{AllFair, run_schedule-SharedOk, run_schedule_complete}

abbrev piece : ℕ → ℕ → ℕ → ChunkRecord
piece start end downloaded = record {
  start = start;
  end = end;
  downloaded = downloaded;
  done = false;
}

abbrev two_pieces : Shared
two_pieces = record {
  chunks = piece 0 1 0 ∷ piece 2 3 0 ∷ [];
  file = λ _. 0;
  extent = 4;
  lost = none;
  failed = false;
  total = 0;
  progress = 0;
  saved = none;
}

abbrev remote : ℕ → ℕ
remote o = o + 7

abbrev two_threads : Config
two_threads = record { threads = 2; remote_total = 4 }

-- Worker 1 is cut off after a byte, and goes on where it stopped.
abbrev fetch_all : List (ℕ × Input)
fetch_all =
    (0, runs true)
    ∷ (1, runs true)
    ∷ (1, runs true)
    ∷ (0, runs true)
    ∷ (1, block (9 ∷ []) stored)
    ∷ (0, block (7 ∷ 8 ∷ []) stored)
    ∷ (1, runs true)
    ∷ (1, reply none)
    ∷ (0, runs true)
    ∷ (1, runs true)
    ∷ (1, runs true)
    ∷ (1, runs true)
    ∷ (1, block (10 ∷ []) stored)
    ∷ (0, reply (some 206))
    ∷ (1, runs true)
    ∷ (1, reply (some 206))
    ∷ (1, runs true)
    ∷ (1, runs true)
    ∷ (0, runs true)
    ∷ (0, runs true)
    ∷ (0, runs true)
    ∷ (0, runs true)
    ∷ (1, runs true)
    ∷ (1, runs true)
    ∷ []

abbrev fetched : System
unfolding run_schedule start_workers
fetched = run_schedule two_threads (start_workers two_pieces) fetch_all

fetched_bytes :
    ((fetched.shared.file 0 ≡ 7) × (fetched.shared.file 3 ≡ 10))
    × ((fetched.workers 0).phase ≡ stopped)
    × ((fetched.workers 1).phase ≡ stopped)
    × (fetched.shared.failed ≡ false)
    × (fetched.shared.total ≡ 4)
unfolding run_schedule start_workers
fetched_bytes = ((refl, refl), refl, refl, refl, refl)

two_pieces-SharedOk : SharedOk remote 4 two_pieces
two_pieces-SharedOk = record { tiles = omega arith; small = omega arith; sized = refl; good = good }
  where
    good :
        (j : ℕ) (c : ChunkRecord)
        → get_elem? two_pieces.chunks j ≡ some c
        → IsGood remote two_pieces.file c
    good zero c e = record {
      bounded = ground arith;
      closed = ground arith;
      bytes = λ o lo hi. absurd (ground arith);
    }
    good (suc zero) c e = record {
      bounded = ground arith;
      closed = ground arith;
      bytes = λ o lo hi. absurd (ground arith);
    }
    good (suc (suc j)) c e = cc

fetch_all_fair : AllFair remote 4 two_threads (start_workers two_pieces) fetch_all
unfolding run_schedule start_workers
fetch_all_fair = omega arith

run_schedule-SharedOk_example :
    SharedOk remote 4 fetched.shared
    × ((stream_file fetched.shared
          ≡ record { size = fetched.shared.extent; byte = fetched.shared.file })
        ⊎ ((i : ℕ) × IsShort i fetched.shared.chunks))
unfolding run_schedule start_workers
run_schedule-SharedOk_example =
    run_schedule-SharedOk remote 4 two_threads two_pieces fetch_all refl two_pieces-SharedOk
      fetch_all_fair

both_stop :
    (t : ℕ) → t < actual_threads two_threads fetched.shared → (fetched.workers t).phase ≡ stopped
unfolding actual_threads run_schedule start_workers
both_stop zero h = refl
both_stop (suc zero) h = refl
both_stop (suc (suc t)) h = absurd (omega arith)

run_schedule_complete_example :
    ((j : ℕ) (c : ChunkRecord) → get_elem? fetched.shared.chunks j ≡ some c → c.done ≡ true)
    × ((stream_file fetched.shared).size ≡ 4)
    × ((o : ℕ) → o < 4 → (stream_file fetched.shared).byte o ≡ remote o)
unfolding run_schedule start_workers
run_schedule_complete_example =
    run_schedule_complete remote 4 two_threads two_pieces fetch_all (omega arith) refl
      two_pieces-SharedOk fetch_all_fair both_stop refl
