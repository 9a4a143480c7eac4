-- ===== src/Executor/Idle.antt =====
-- The executor (ChunkExecutor.cpp) where every chunk is closed from the start.
use reborn_launcher.Base.{
  inr, inl, ℕ, ◌≡◌, refl, true, not, ◌&&◌, List, [], ◌∷◌, arith, All, get_elem?, ltb, Bool-cases,
  Option-cases, All-get_elem?, ◌==◌,
}
use reborn_launcher.Executor.{
  Shared, Phase, head, trying, leaving, receiving, committing, refused, saving, judging, Worker,
  Input, runs, Config, System, max_attempts, step_head, start_attempt, step_trying, step_leave,
  step_in, worker_step, system_step, run_schedule, start_workers,
}

-- Phases in which no request is open.
abbrev IsIdle : Phase → Type 0
IsIdle (receiving _) = ⊥
IsIdle (committing _ _) = ⊥
IsIdle (refused _) = ⊥
IsIdle (saving _ _) = ⊥
IsIdle (judging _ _) = ⊥
IsIdle _ = Unit

abbrev Rests : Shared → Shared × Worker → Type 0
Rests s r = (r.0 ≡ s) × IsIdle r.1.phase

module _ (cfg : Config) (s : Shared) (all_done : All (λ c. c.done ≡ true) s.chunks) where
  trying-Rests : (w : Worker) → IsIdle w.phase → Rests s (step_trying s w)
  unfolding step_trying start_attempt
  trying-Rests w h = elim (Bool-cases (ltb w.attempt max_attempts && not s.failed)) [
    | inl go ↦ elim (Option-cases (get_elem? s.chunks w.index)) [
      | inl e ↦ rw go (rw (e, step_trying) (refl, h))
      | inr (c, e) ↦
          let done = All-get_elem? (λ c. c.done ≡ true) s.chunks w.index c all_done e in
          rw go (rw (e, step_trying) (rw (done, start_attempt) (refl, tt)))
    ]
    | inr stop ↦ rw stop (refl, tt)
  ]

  leave-Rests : (w : Worker) → IsIdle w.phase → Rests s (step_leave cfg s w)
  unfolding step_leave
  leave-Rests w h = elim (Option-cases (get_elem? s.chunks w.index)) [
    | inl e ↦ rw (e, step_leave) (refl, h)
    | inr (c, e) ↦
        let done = All-get_elem? (λ c. c.done ≡ true) s.chunks w.index c all_done e in
        rw (e, step_leave) (rw done (refl, tt))
  ]

  step-Rests :
      (w : Worker) (p : Phase) (input : Input)
      → IsIdle p
      → IsIdle w.phase
      → Rests s (step_in cfg s w p input)
  unfolding step_in step_head
  step-Rests w head (runs b) i h = ground arith
  step-Rests w trying (runs b) i h = trying-Rests w h
  step-Rests w leaving (runs b) i h = leave-Rests w h
  step-Rests w (receiving cur) input i h = absurd i
  step-Rests w (committing cur n) input i h = absurd i
  step-Rests w (refused cur) input i h = absurd i
  step-Rests w (saving cs next) input i h = absurd i
  step-Rests w (judging r cur) input i h = absurd i
  step-Rests w _ _ i h = (refl, h)

  run-Rests :
      (es : List (ℕ × Input)) (sys : System)
      → sys.shared ≡ s
      → ((t : ℕ) → IsIdle (sys.workers t).phase)
      → (run_schedule cfg sys es).shared ≡ s
  unfolding run_schedule system_step worker_step
  run-Rests [] sys e idle = e
  run-Rests ((t, input) ∷ es) sys e idle =
      let rest = step-Rests (sys.workers t) (sys.workers t).phase input (idle t) (idle t) in
      run-Rests es (system_step cfg sys (t, input)) (rw e rest.0) λ u. elim (Bool-cases (u == t)) [
        | inl mine ↦ rw mine (rw e rest.1)
        | inr other ↦ rw other (idle u)
      ]

  -- Nothing is requested, written or counted, whatever happens.
  pub run_schedule_idle :
      (es : List (ℕ × Input)) → (run_schedule cfg (start_workers s) es).shared ≡ s
  unfolding start_workers
  run_schedule_idle es = run-Rests es (start_workers s) refl (λ t. tt)
