-- ===== src/Executor/Stability.antt =====
-- A step of one worker, seen by the others (ChunkExecutor.cpp).
use reborn_launcher.Base.{
  ℕ, ◌≤◌, ◌≡◌, ◌≢◌, inl, inr, sym, subst, ◌∙◌, ℕ_discrete, true, some, arith, get_elem?,
}
use reborn_launcher.Chunk.{ChunkRecord}
use reborn_launcher.Chunk.Tiling.{Tiles-range, Tiles-disjoint}
use reborn_launcher.Executor.{
  Shared, Cursor, Phase, head, trying, leaving, stopped, receiving, committing, refused, saving,
  judging, Worker, Config,
}
use reborn_launcher.Executor.Invariant.{IsAligned, PhaseOk, WorkerOk, SharedOk, Guarantee}

-- Under a step of the worker of chunk `i`, the other workers' facts are stable.
module _ {content : ℕ → ℕ} {n : ℕ} {s s' : Shared} {i : ℕ} (ok : SharedOk content n s)
    (g : Guarantee s s' i) where
  -- The bytes of another chunk are left alone.
  pub file_kept :
      (j : ℕ) (c : ChunkRecord) (o : ℕ)
      → i ≢ j
      → get_elem? s.chunks j ≡ some c
      → c.start ≤ o
      → o ≤ c.end
      → s'.file o ≡ s.file o
  file_kept j c o ne e lo hi = g.file_others o λ own owned.
      let apart = Tiles-disjoint s.chunks 0 n i j own c ok.tiles owned e ne in
      let good = (ok.good i own owned).bounded in
      let range = Tiles-range s.chunks 0 n i own ok.tiles owned in
      elim apart [ inl before ↦ inr (omega arith) | inr after ↦ inl (omega arith) ]

  IsAligned-kept : (j : ℕ) (cur : Cursor) → i ≢ j → IsAligned s j cur → IsAligned s' j cur
  IsAligned-kept j cur ne a = record {
    chunk = a.chunk;
    at_index = g.others j ne ∙ a.at_index;
    offset_is = a.offset_is;
    last_is = a.last_is;
    size_is = a.size_is;
  }

  PhaseOk-kept : (j : ℕ) (p : Phase) → i ≢ j → PhaseOk content s j p → PhaseOk content s' j p
  PhaseOk-kept j (receiving cur) ne a = IsAligned-kept j cur ne a
  PhaseOk-kept j (committing cur m) ne (a, w) = (
    IsAligned-kept j cur ne a,
    record {
      fits = w.fits;
      written = λ o lo hi.
          let fits = w.fits in
          let offset = a.offset_is in
          let last = a.last_is in
          file_kept j a.chunk o ne a.at_index (omega arith) (omega arith) ∙ w.written o lo hi;
    },
  )
  PhaseOk-kept j (saving chunks next) ne a = PhaseOk-kept j next ne a
  PhaseOk-kept j stopped ne (inl failed) = inl (g.stays_failed failed)
  PhaseOk-kept j stopped ne (inr past) = inr (let e = g.count in omega arith)
  PhaseOk-kept j head ne a = tt
  PhaseOk-kept j trying ne a = tt
  PhaseOk-kept j leaving ne a = tt
  PhaseOk-kept j (refused cur) ne a = tt
  PhaseOk-kept j (judging r cur) ne a = tt

  -- A chunk that was closed is closed still.
  closed_kept :
      (j : ℕ) (c' : ChunkRecord)
      → get_elem? s'.chunks j ≡ some c'
      → ((c : ChunkRecord) → get_elem? s.chunks j ≡ some c → c.done ≡ true)
      → c'.done ≡ true
  closed_kept j c' e before = elim (ℕ_discrete i j) [
    | yes same ↦
        g.stays_done c' (rw same e)
          (λ c owned. before c (subst (λ k. get_elem? s.chunks k ≡ some c) same owned))
    | no ne ↦ before c' (sym (g.others j ne) ∙ e)
  ]

  -- The other workers' facts survive the step.
  pub WorkerOk-kept :
      (cfg : Config) (t : ℕ) (w : Worker)
      → i ≢ w.index
      → WorkerOk content cfg s t w
      → WorkerOk content cfg s' t w
  WorkerOk-kept cfg t w ne ok_w = record {
    lane = ok_w.lane;
    passed = λ j c lt lane e. closed_kept j c e (λ c0 e0. ok_w.passed j c0 lt lane e0);
    phase_ok = PhaseOk-kept w.index w.phase ne ok_w.phase_ok;
  }
