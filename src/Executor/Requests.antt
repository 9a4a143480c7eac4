-- ===== src/Executor/Requests.antt =====
-- The phases of `WorkerLoop` up to the end of a request (ChunkExecutor.cpp) keep the invariant, if the
-- remote is honest.
use reborn_launcher.Base.{
  ℕ, ◌+◌, ◌-◌, ◌%◌, ◌≤◌, ◌<◌, ◌≡◌, ◌⊎◌, inl, inr, refl, true, not, ◌&&◌, List, [], ◌∷◌, some, arith,
  length, get_elem?, set, get_elem?-set_self, dec_lt, lt_of_get_elem?, u64_mod, ltb, leb,
  Bool-cases, Option-cases,
}
use reborn_launcher.Chunk.{ChunkRecord}
use reborn_launcher.Chunk.Tiling.{Tiles-range}
use reborn_launcher.Executor.{
  Shared, Cursor, trying, leaving, stopped, receiving, committing, refused, saving, Worker, Disk,
  stored, breaks, Config, max_attempts, commit, committed, step_head, request_rest, start_attempt,
  step_trying, store_bytes, is_good, step_block, step_commit,
}
use reborn_launcher.Files.{write_at}
use reborn_launcher.Files.Writes.{Matches, write_at_outside, write_at_inside}
use reborn_launcher.Executor.Invariant.{IsAligned, IsWritten, WorkerOk, SharedOk}
use reborn_launcher.Executor.Steps.{Outcome, moves, fails, updates, writes}

module _ {content : ℕ → ℕ} {n : ℕ} {cfg : Config} {t : ℕ} {s : Shared} {w : Worker}
    (ok : SharedOk content n s) (own : WorkerOk content cfg s t w) where
  abbrev Keeps : Shared × Worker → Type 0
  Keeps r = Outcome content n cfg t s w.index r

  pub head-Keeps : Keeps (step_head s w)
  unfolding step_head
  head-Keeps = elim (Bool-cases (ltb w.index (length s.chunks) && not s.failed)) [
    | inl go ↦ rw go (moves ok own 0 trying tt)
    | inr stop ↦ rw stop (moves ok own w.attempt stopped (ground arith))
  ]

  request_rest-Keeps :
      (c : ChunkRecord) (size : ℕ)
      → get_elem? s.chunks w.index ≡ some c
      → size ≡ c.end - c.start + 1
      → Keeps (request_rest s w c size)
  unfolding request_rest
  request_rest-Keeps c size e size_is =
      let range = Tiles-range s.chunks 0 n w.index c ok.tiles e in
      let small = ok.small in
      let good = ok.good w.index c e in
      let bounded = good.bounded in
      elim (Bool-cases (leb size c.downloaded)) [
        | inl full ↦
            let eq : c.downloaded ≡ size = ground arith in
            rw full (
              updates ok own c (record c { downloaded = size; done = true }) s.total s.progress
                (saving (set s.chunks w.index (record c { downloaded = size; done = true }))
                  leaving)
                e refl refl (λ _. refl)
                (record {
                  bounded = omega arith;
                  closed = λ _. size_is;
                  bytes = λ o lo hi. good.bytes o lo (omega arith);
                })
                tt)
        | inr partial ↦ rw partial (
            moves ok own w.attempt _ (record {
              chunk = c;
              at_index = e;
              offset_is = omega arith;
              last_is = refl;
              size_is = size_is;
            }))
      ]

  start_attempt-Keeps :
      (c : ChunkRecord) → get_elem? s.chunks w.index ≡ some c → Keeps (start_attempt s w c)
  unfolding start_attempt
  start_attempt-Keeps c e =
      let range = Tiles-range s.chunks 0 n w.index c ok.tiles e in
      let small = ok.small in
      let size : (c.end - c.start + 1) % u64_mod ≡ c.end - c.start + 1 = omega arith in
      elim (Bool-cases c.done) [
        | inl done ↦ rw done (moves ok own w.attempt leaving tt)
        | inr partial ↦ elim (Bool-cases (ltb c.end c.start)) [
          | inl bad ↦ rw (partial, bad) (fails ok own)
          | inr fine ↦ rw (partial, fine) (request_rest-Keeps c _ e size)
        ]
      ]

  pub trying-Keeps : Keeps (step_trying s w)
  unfolding step_trying
  trying-Keeps = elim (Bool-cases (ltb w.attempt max_attempts && not s.failed)) [
    | inl go ↦ elim (Option-cases (get_elem? s.chunks w.index)) [
      | inl e ↦ rw go (rw (e, step_trying) (moves ok own w.attempt w.phase own.phase_ok))
      | inr (c, e) ↦ rw go (rw (e, step_trying) (start_attempt-Keeps c e))
    ]
    | inr stop ↦ rw stop (moves ok own w.attempt leaving tt)
  ]

  store-Keeps :
      (cur : Cursor) (bytes : List ℕ) (disk : Disk)
      → IsAligned s w.index cur
      → cur.offset + length bytes ≤ cur.last + 1
      → Matches content cur.offset bytes
      → Keeps (store_bytes s w cur bytes disk)
  unfolding store_bytes
  store-Keeps cur bytes stored a fits m =
      writes ok own cur (write_at s.file cur.offset bytes) (cur.offset + length bytes)
        (committing cur (length bytes)) a
        (λ o free.
          write_at_outside bytes s.file cur.offset o
            (elim free [ inl before ↦ inl before | inr after ↦ inr (omega arith) ]))
        (omega arith)
        (
          record {
            chunk = a.chunk;
            at_index = a.at_index;
            offset_is = a.offset_is;
            last_is = a.last_is;
            size_is = a.size_is;
          },
          record {
            fits = fits;
            written = λ o lo hi. write_at_inside content bytes s.file cur.offset o m lo hi;
          },
        )
  store-Keeps cur bytes (breaks f) a fits m = record {
    guarantee = record {
      count = refl;
      others = λ j ne. refl;
      file_others = λ o h. refl;
      stays_failed = λ h. h;
      stays_done = λ c e h. h c e;
    };
    shared_ok = record { tiles = ok.tiles; small = ok.small; sized = ok.sized; good = ok.good };
    own = record { lane = own.lane; passed = own.passed; phase_ok = tt };
  }

  pub block-Keeps :
      (cur : Cursor) (bytes : List ℕ) (disk : Disk)
      → IsAligned s w.index cur
      → cur.offset + length bytes ≤ cur.last + 1
      → Matches content cur.offset bytes
      → w.phase ≡ receiving cur
      → Keeps (step_block s w cur bytes disk)
  unfolding step_block
  block-Keeps cur [] disk a fits m e = moves ok own w.attempt w.phase own.phase_ok
  block-Keeps cur (b ∷ bs) disk a fits m e = elim (Bool-cases (is_good s.lost)) [
    | inl good ↦ rw good (store-Keeps cur (b ∷ bs) disk a fits m)
    | inr broken ↦ rw broken (moves ok own w.attempt (refused cur) tt)
  ]

  -- The record after the commit, where no sum wraps.
  commit_lem :
      (cur : Cursor) (c : ChunkRecord) (k : ℕ)
      → c.downloaded + k ≤ cur.size
      → cur.size < u64_mod
      → (committed cur c k ≡ k)
        × ((commit cur c k).downloaded ≡ c.downloaded + k)
        × ((commit cur c k).start ≡ c.start)
        × ((commit cur c k).end ≡ c.end)
        × ((commit cur c k).done ≡ true → (c.done ≡ true) ⊎ (c.downloaded + k ≡ cur.size))
        × (c.done ≡ true → (commit cur c k).done ≡ true)
  unfolding commit committed
  commit_lem cur c k h small = ground arith

  pub commit-Keeps :
      (cur : Cursor) (k : ℕ)
      → IsAligned s w.index cur
      → IsWritten content s cur k
      → Keeps (step_commit cfg s w cur k)
  unfolding step_commit
  commit-Keeps cur k a written =
      let c = a.chunk in
      let e = a.at_index in
      let range = Tiles-range s.chunks 0 n w.index c ok.tiles e in
      let small = ok.small in
      let good = ok.good w.index c e in
      let bounded = good.bounded in
      let offset = a.offset_is in
      let last = a.last_is in
      let size = a.size_is in
      let fits = written.fits in
      let (taken, sum, start, end, closes, keeps) =
        commit_lem cur c k (omega arith) (omega arith) in
      rw (e, step_commit)
        (updates ok own c (commit cur c k) _ _
          (receiving (record cur {
            offset = (cur.offset + k) % u64_mod;
            received = (cur.received + k) % u64_mod;
          }))
          e start end keeps
          (record {
            bounded = omega arith;
            closed = λ d. elim (closes d) [
              | inl before ↦ let full = good.closed before in omega arith
              | inr now ↦ omega arith
            ];
            bytes = λ o lo hi. elim (dec_lt o cur.offset) [
              | yes old ↦ good.bytes o (omega arith) (omega arith)
              | no fresh ↦ written.written o (omega arith) (omega arith)
            ];
          })
          (record {
            chunk = commit cur c k;
            at_index = get_elem?-set_self s.chunks w.index _ (lt_of_get_elem? s.chunks w.index c e);
            offset_is = omega arith;
            last_is = omega arith;
            size_is = omega arith;
          }))
