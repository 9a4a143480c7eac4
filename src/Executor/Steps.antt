-- ===== src/Executor/Steps.antt =====
-- Each kind of step of a worker (ChunkExecutor.cpp), and what it leaves true.
use reborn_launcher.Base.{
  ◌+◌, ◌≤◌, ℕ, ◌<◌, ◌≡◌, ◌≢◌, ◌⊎◌, inl, inr, refl, sym, subst, ◌∙◌, ℕ_discrete, true, some, arith,
  get_elem?, set, length-set, max, get_elem?-set_self, get_elem?-set_ne, lt_of_get_elem?,
}
use reborn_launcher.Chunk.{ChunkRecord}
use reborn_launcher.Chunk.Tiling.{Tiles-range, Tiles-set}
use reborn_launcher.Executor.{Shared, Cursor, Phase, stopped, Worker, Config, mark_failure}
use reborn_launcher.Executor.Stability.{file_kept}
use reborn_launcher.Executor.Invariant.{IsGood, IsAligned, PhaseOk, WorkerOk, SharedOk, Guarantee}

-- What a step of worker `t` on its chunk leaves.
pub record Outcome (content : ℕ → ℕ) (n : ℕ) (cfg : Config) (t : ℕ) (s : Shared) (i : ℕ)
    (r : Shared × Worker) : Type 0 where
  pub guarantee : Guarantee s r.0 i
  pub shared_ok : SharedOk content n r.0
  pub own : WorkerOk content cfg r.0 t r.1

pub Guarantee-refl : (s : Shared) (i : ℕ) → Guarantee s s i
Guarantee-refl s i = record {
  count = refl;
  others = λ j ne. refl;
  file_others = λ o h. refl;
  stays_failed = λ h. h;
  stays_done = λ c e h. h c e;
}

module _ {content : ℕ → ℕ} {n : ℕ} {cfg : Config} {t : ℕ} {s : Shared} {w : Worker}
    (ok : SharedOk content n s) (own : WorkerOk content cfg s t w) where
  -- The worker moves to another phase, and changes nothing that is shared.
  pub moves :
      (attempt : ℕ) (p : Phase)
      → PhaseOk content s w.index p
      → Outcome content n cfg t s w.index
          (s, record { index = w.index; attempt = attempt; phase = p })
  moves attempt p h = record {
    guarantee = Guarantee-refl s w.index;
    shared_ok = ok;
    own = record { lane = own.lane; passed = own.passed; phase_ok = h };
  }

  -- The worker gives up.
  pub fails : Outcome content n cfg t s w.index (mark_failure s, record w { phase = stopped })
  fails = record {
    guarantee = record {
      count = refl;
      others = λ j ne. refl;
      file_others = λ o h. refl;
      stays_failed = λ h. refl;
      stays_done = λ c e h. h c e;
    };
    shared_ok = record { tiles = ok.tiles; small = ok.small; sized = ok.sized; good = ok.good };
    own = record { lane = own.lane; passed = own.passed; phase_ok = inl refl };
  }

  -- The worker writes its chunk's record.
  pub updates :
      (c d : ChunkRecord) (total progress : ℕ) (p : Phase)
      → get_elem? s.chunks w.index ≡ some c
      → d.start ≡ c.start
      → d.end ≡ c.end
      → (c.done ≡ true → d.done ≡ true)
      → IsGood content s.file d
      → let s' = record s { chunks = set s.chunks w.index d; total = total; progress = progress } in
        PhaseOk content s' w.index p
        → Outcome content n cfg t s w.index (s', record w { phase = p })
  updates c d total progress p e same_start same_end keeps good h =
      let here : get_elem? (set s.chunks w.index d) w.index ≡ some d =
        get_elem?-set_self s.chunks w.index d (lt_of_get_elem? s.chunks w.index c e) in
      record {
        guarantee = record {
          count = length-set s.chunks w.index d;
          others = λ j ne. get_elem?-set_ne s.chunks d ne;
          file_others = λ o h. refl;
          stays_failed = λ h. h;
          stays_done = λ c' e' before. ground (arith, before c e, keeps, here);
        };
        shared_ok = record {
          tiles = Tiles-set s.chunks 0 n w.index c d ok.tiles e same_start same_end;
          small = ok.small;
          sized = ok.sized;
          good = λ j c' e'. elim (ℕ_discrete w.index j) [
            | yes same ↦
                let e'' : get_elem? (set s.chunks w.index d) w.index ≡ some c' =
                  subst (λ k. get_elem? (set s.chunks w.index d) k ≡ some c') (sym same) e' in
                let eq : d ≡ c' = ground (arith, here) in subst (IsGood content s.file) eq good
            | no ne ↦ ok.good j c' (sym (get_elem?-set_ne s.chunks d ne) ∙ e')
          ];
        };
        own = record {
          lane = own.lane;
          passed = λ j c' lt lane e'.
              let ne : w.index ≢ j = omega arith in
              own.passed j c' lt lane (sym (get_elem?-set_ne s.chunks d ne) ∙ e');
          phase_ok = h;
        };
      }

  -- The worker writes into the open part of its chunk.
  pub writes :
      (cur : Cursor) (f : ℕ → ℕ) (extent : ℕ) (p : Phase)
      → IsAligned s w.index cur
      → ((o : ℕ) → (o < cur.offset) ⊎ (cur.last < o) → f o ≡ s.file o)
      → extent ≤ cur.last + 1
      → PhaseOk content (record s { file = f; extent = max s.extent extent }) w.index p
      → Outcome content n cfg t s w.index
          (record s { file = f; extent = max s.extent extent }, record w { phase = p })
  writes cur f extent p a outside fits h = record {
    guarantee = g;
    shared_ok = record {
      tiles = ok.tiles;
      small = ok.small;
      sized =
          let last = a.last_is in
          let range = Tiles-range s.chunks 0 n w.index a.chunk ok.tiles a.at_index in
          let old = ok.sized in omega arith;
      good = λ j c e. elim (ℕ_discrete w.index j) [
        | yes same ↦
            let here : get_elem? s.chunks w.index ≡ some c =
              subst (λ k. get_elem? s.chunks k ≡ some c) (sym same) e in
            let eq : a.chunk ≡ c = ground (arith, a.at_index) in good_own c eq (ok.good j c e)
        | no ne ↦ good_other j c ne e (ok.good j c e)
      ];
    };
    own = record { lane = own.lane; passed = own.passed; phase_ok = h };
  }
    where
      g : Guarantee s (record s { file = f; extent = max s.extent extent }) w.index
      g = record {
        count = refl;
        others = λ j ne. refl;
        file_others = λ o free.
            let offset = a.offset_is in
            let last = a.last_is in
            outside o (elim (free a.chunk a.at_index) [
              | inl before ↦ inl (omega arith)
              | inr after ↦ inr (omega arith)
            ]);
        stays_failed = λ h. h;
        stays_done = λ c e h. h c e;
      }

      good_own : (c : ChunkRecord) → a.chunk ≡ c → IsGood content s.file c → IsGood content f c
      good_own c eq good = record {
        bounded = good.bounded;
        closed = good.closed;
        bytes = λ o lo hi.
            let offset = a.offset_is in outside o (inl (ground (arith, eq))) ∙ good.bytes o lo hi;
      }

      good_other :
          (j : ℕ) (c : ChunkRecord)
          → w.index ≢ j
          → get_elem? s.chunks j ≡ some c
          → IsGood content s.file c
          → IsGood content f c
      good_other j c ne e good = record {
        bounded = good.bounded;
        closed = good.closed;
        bytes = λ o lo hi.
            let bound = good.bounded in
            let range = Tiles-range s.chunks 0 n j c ok.tiles e in
            file_kept ok g j c o ne e lo (omega arith) ∙ good.bytes o lo hi;
      }
