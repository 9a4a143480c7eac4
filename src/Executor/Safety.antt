-- ===== src/Executor/Safety.antt =====
-- The whole executor (ChunkExecutor.cpp), under every schedule of its workers.
use native.Mathlib.Nat.{mod-eq_of_lt, mod-lt, mod-le}
use reborn_launcher.Base.{
  ◌==◌, Bool-cases, ◌⊎◌, Option-cases, none, ℕ, ◌%◌, ◌<◌, ◌≡◌, inl, inr, refl, sym, subst, ap, ◌≢◌,
  ◌∙◌, ℕ_discrete, true, false, List, [], ◌∷◌, some, arith, get_elem?, lt_of_get_elem?,
}
use reborn_launcher.Chunk.{ChunkRecord}
use reborn_launcher.Chunk.Tiling.{Tiles-covers}
use reborn_launcher.Executor.{
  stream_file, is_good, Shared, Worker, stopped, Input, Config, System, worker_step, system_step,
  run_schedule, replace, actual_threads, start_workers,
}
use reborn_launcher.Executor.Invariant.{PhaseOk, WorkerOk, SharedOk, Inv, IsHonest}
use reborn_launcher.Executor.Stability.{WorkerOk-kept}
use reborn_launcher.Executor.Phases.{step-Outcome}
use reborn_launcher.Executor.Stuck.{IsShort, IsCalm, step-BreaksAt, step-Stays}

replace_same : (ws : ℕ → Worker) (t u : ℕ) (w : Worker) → u ≡ t → replace ws t w u ≡ w
replace_same ws t u w e = ground arith

replace_ne : (ws : ℕ → Worker) (t u : ℕ) (w : Worker) → ¬ (u ≡ t) → replace ws t w u ≡ ws u
replace_ne ws t u w ne = ground arith

good-stream_file :
    (s : Shared) → s.lost ≡ none → stream_file s ≡ record { size = s.extent; byte = s.file }
unfolding stream_file
good-stream_file s fine = rw fine refl

-- Where every chunk is done, the stream has not failed.
pub closed-stream_file :
    (content : ℕ → ℕ) (n : ℕ) (s : Shared)
    → SharedOk content n s
    → ((j : ℕ) (c : ChunkRecord) → get_elem? s.chunks j ≡ some c → c.done ≡ true)
    → (stream_file s ≡ record { size = s.extent; byte = s.file }) ⊎ ((i : ℕ) × IsShort i s.chunks)
    → stream_file s ≡ record { size = s.extent; byte = s.file }
closed-stream_file content n s ok done (inl e) = e
closed-stream_file content n s ok done (inr (i, (c, e, short))) =
    let full = (ok.good i c e).closed (done i c e) in absurd (omega arith)

module _ (content : ℕ → ℕ) (n : ℕ) (cfg : Config) where
  -- A move of a worker that exists, with an honest environment.
  abbrev pub IsFair : System → ℕ × Input → Type 0
  IsFair sys (t, input) = (t < cfg.threads) × IsHonest content (sys.workers t).phase input

  -- Each move of the schedule is such, at the state in which it is made.
  abbrev pub AllFair : System → List (ℕ × Input) → Type 0
  AllFair sys [] = Unit
  AllFair sys (e ∷ es) = IsFair sys e × AllFair (system_step cfg sys e) es

  step-Inv :
      (sys : System) (t : ℕ) (input : Input)
      → IsFair sys (t, input)
      → Inv content n cfg sys
      → Inv content n cfg (system_step cfg sys (t, input))
  unfolding system_step worker_step
  step-Inv sys t input (lt, honest) v =
      let own = v.own t lt in
      let out = step-Outcome v.shared_ok own (sys.workers t).phase input refl honest in
      let s' : Shared = (worker_step cfg sys.shared (sys.workers t) input).0 in
      let w' : Worker = (worker_step cfg sys.shared (sys.workers t) input).1 in
      record {
        shared_ok = out.shared_ok;
        own = λ u ltu. elim (ℕ_discrete u t) [
          | yes same ↦
              let now = replace_same sys.workers t u w' same in
              let mine = subst (λ k. WorkerOk content cfg s' k w') (sym same) out.own in
              subst (WorkerOk content cfg s' u) (sym now) mine
          | no ne ↦
              let now = replace_ne sys.workers t u w' ne in
              let theirs = v.own u ltu in
              let apart : (sys.workers t).index ≢ (sys.workers u).index =
                λ e. ne (sym theirs.lane ∙ ap (λ k. k % cfg.threads) (sym e) ∙ own.lane) in
              subst (WorkerOk content cfg s' u) (sym now)
                (WorkerOk-kept v.shared_ok out.guarantee cfg u (sys.workers u) apart theirs)
        ];
      }

  run-Inv :
      (sys : System) (es : List (ℕ × Input))
      → AllFair sys es
      → Inv content n cfg sys
      → Inv content n cfg (run_schedule cfg sys es)
  unfolding run_schedule
  run-Inv sys [] f v = v
  run-Inv sys ((t, input) ∷ es) f v =
      run-Inv (system_step cfg sys (t, input)) es f.1 (step-Inv sys t input f.0 v)

  start-Inv : (s : Shared) → SharedOk content n s → Inv content n cfg (start_workers s)
  unfolding start_workers
  start-Inv s ok = record {
    shared_ok = ok;
    own = λ t lt. record {
      lane = mod-eq_of_lt lt;
      passed = λ j c before lane e.
          let small : j < cfg.threads = omega arith in
          let same = mod-eq_of_lt small in absurd (omega arith);
      phase_ok = tt;
    };
  }

  -- The stream is good, or a chunk is short, and no block for it waits to be counted.
  abbrev IsStuckAt : System → ℕ → Type 0
  IsStuckAt sys i =
      IsShort i sys.shared.chunks
      × ((t : ℕ) → t < cfg.threads → (sys.workers t).index ≡ i → IsCalm (sys.workers t).phase)

  abbrev GoodOrStuck : System → Type 0
  GoodOrStuck sys = (sys.shared.lost ≡ none) ⊎ ((i : ℕ) × IsStuckAt sys i)

  -- Only the worker of a lane stands at an index of it.
  same_worker :
      {sys : System} (v : Inv content n cfg sys) (t u : ℕ)
      → t < cfg.threads
      → u < cfg.threads
      → (sys.workers t).index ≡ (sys.workers u).index
      → t ≡ u
  same_worker {sys} v t u lt ltu e =
      sym (v.own t lt).lane ∙ ap (λ k. k % cfg.threads) e ∙ (v.own u ltu).lane

  module _ (sys : System) (t : ℕ) (input : Input) (fair : IsFair sys (t, input))
      (v : Inv content n cfg sys) where
    after_good : sys.shared.lost ≡ none → GoodOrStuck (system_step cfg sys (t, input))
    unfolding system_step worker_step
    after_good fine =
        elim (step-BreaksAt v.shared_ok (v.own t fair.0) (sys.workers t).phase input refl fair.1
          fine) [
            | inl still ↦ inl still
            | inr (short, same, calm) ↦ inr (
              (sys.workers t).index,
              (
                short,
                λ u ltu here. elim (Bool-cases (u == t)) [
                  | inl mine ↦ rw mine calm
                  | inr other ↦
                      let at_other : (sys.workers u).index ≡ (sys.workers t).index =
                        rw other at here in
                      let clash = same_worker v u t ltu fair.0 at_other in
                      absurd (ground (arith, clash))
                ],
              ),
            )
          ]

    after_stuck :
        (i : ℕ)
        → IsStuckAt sys i
        → is_good sys.shared.lost ≡ false
        → GoodOrStuck (system_step cfg sys (t, input))
    unfolding system_step worker_step
    after_stuck i (short, calm) broken =
        let own = v.own t fair.0 in
        let w = sys.workers t in
        let stays = step-Stays v.shared_ok own i short (calm t fair.0) broken w.phase input refl in
        let out = step-Outcome v.shared_ok own w.phase input refl fair.1 in
        let g = out.guarantee in
        let still : IsShort i (system_step cfg sys (t, input)).shared.chunks =
          elim (ℕ_discrete w.index i) [
            | yes here ↦ stays.2 here
            | no ne ↦ (short.0, g.others i ne ∙ short.1, short.2)
          ] in
        inr (
          i,
          (
            still,
            λ u ltu here. elim (Bool-cases (u == t)) [
              | inl mine ↦ rw mine (stays.1 (rw mine at here))
              | inr other ↦ rw other (calm u ltu (rw other at here))
            ],
          ),
        )

    step-GoodOrStuck : GoodOrStuck sys → GoodOrStuck (system_step cfg sys (t, input))
    unfolding is_good
    step-GoodOrStuck (inl fine) = after_good fine
    step-GoodOrStuck (inr (i, stuck)) = elim (Option-cases sys.shared.lost) [
      | inl fine ↦ after_good fine
      | inr (f, e) ↦ after_stuck i stuck (simp (e, is_good) refl)
    ]

  run-GoodOrStuck :
      (sys : System) (es : List (ℕ × Input))
      → AllFair sys es
      → Inv content n cfg sys
      → GoodOrStuck sys
      → GoodOrStuck (run_schedule cfg sys es)
  unfolding run_schedule
  run-GoodOrStuck sys [] f v h = h
  run-GoodOrStuck sys ((t, input) ∷ es) f v h =
      run-GoodOrStuck (system_step cfg sys (t, input)) es f.1 (step-Inv sys t input f.0 v)
        (step-GoodOrStuck sys t input f.0 v h)

  -- At every point of every schedule in which the remote serves what it is asked for, whatever the
  -- stream refuses and whichever requests fail: the chunks still cover the file, none counts more
  -- bytes than it has, a closed one has all of them, and the bytes that count as downloaded are the
  -- remote's in what the stream took. That is what disk and buffer hold, unless the stream has failed;
  -- then what was counted may be gone from the disk, but some chunk has bytes that do not count. This
  -- holds from any start at which it holds, with a stream that is good.
  pub run_schedule-SharedOk :
      (s : Shared) (es : List (ℕ × Input))
      → s.lost ≡ none
      → SharedOk content n s
      → AllFair (start_workers s) es
      → let s' = (run_schedule cfg (start_workers s) es).shared in
        SharedOk content n s'
        × ((stream_file s' ≡ record { size = s'.extent; byte = s'.file })
            ⊎ ((i : ℕ) × IsShort i s'.chunks))
  unfolding start_workers
  run_schedule-SharedOk s es fine ok fair =
      let v = start-Inv s ok in
      (
        (run-Inv (start_workers s) es fair v).shared_ok,
        elim (run-GoodOrStuck (start_workers s) es fair v (inl fine)) [
          | inl still ↦ inl (good-stream_file _ still)
          | inr (i, (short, calm)) ↦ inr (i, short)
        ],
      )

  stopped-done :
      (sys : System)
      → 0 < cfg.threads
      → Inv content n cfg sys
      → ((t : ℕ) → t < actual_threads cfg sys.shared → (sys.workers t).phase ≡ stopped)
      → sys.shared.failed ≡ false
      → (j : ℕ) (c : ChunkRecord) → get_elem? sys.shared.chunks j ≡ some c
      → c.done ≡ true
  unfolding actual_threads
  stopped-done sys pos v stop ran j c e =
      let in_list = lt_of_get_elem? sys.shared.chunks j c e in
      let lane = mod-lt j pos in
      let below = mod-le j cfg.threads in
      let own = v.own (j % cfg.threads) lane in
      let at_end =
        subst (PhaseOk content sys.shared _) (stop (j % cfg.threads) (omega arith)) own.phase_ok in
      elim at_end [ inl failed ↦ cc | inr past ↦ own.passed j c (omega arith) refl e ]

  -- If the remote serves what it is asked for, the stream is good at the start, and every worker that
  -- `Run` started has stopped with no failure recorded, then every chunk is done, and the stream's
  -- file, of the remote's size, holds the remote's bytes, in its buffer or on the disk.
  pub run_schedule_complete :
      (s : Shared) (es : List (ℕ × Input))
      → 0 < cfg.threads
      → s.lost ≡ none
      → SharedOk content n s
      → AllFair (start_workers s) es
      → let sys = run_schedule cfg (start_workers s) es in
        ((t : ℕ) → t < actual_threads cfg sys.shared → (sys.workers t).phase ≡ stopped)
        → sys.shared.failed ≡ false
        → ((j : ℕ) (c : ChunkRecord) → get_elem? sys.shared.chunks j ≡ some c → c.done ≡ true)
          × ((stream_file sys.shared).size ≡ n)
          × ((o : ℕ) → o < n → (stream_file sys.shared).byte o ≡ content o)
  run_schedule_complete s es pos fine ok fair stop ran =
      let v = run-Inv (start_workers s) es fair (start-Inv s ok) in
      let all_done = stopped-done _ pos v stop ran in
      let kept =
        closed-stream_file content n _ v.shared_ok all_done
          (run_schedule-SharedOk s es fine ok fair).1 in
      (
        all_done,
        rw kept v.shared_ok.sized,
        λ o lt.
            let (j, c, e, lo, hi) = Tiles-covers _ 0 n o v.shared_ok.tiles (omega arith) lt in
            let good = v.shared_ok.good j c e in
            let full = good.closed (all_done j c e) in rw kept (good.bytes o lo (omega arith)),
      )
