-- ===== src/Executor/Phases.antt =====
-- Each phase of `WorkerLoop` (ChunkExecutor.cpp) keeps the invariant, if the remote is honest.
use native.Mathlib.Nat.{add-mod_right, mod-add-div'}
use reborn_launcher.Base.{
  ℕ, suc, ◌+◌, ◌%◌, ◌≤◌, ◌<◌, ◌≡◌, inl, inr, refl, sym, subst, ◌∙◌, Bool, true, false, not, ◌&&◌,
  List, Option, none, some, arith, get_elem?, dec_lt, ◌||◌, u64_mod, ◌==◌, if◌then◌else◌,
  Bool-cases, Option-cases,
}
use reborn_launcher.Chunk.{ChunkRecord}
use reborn_launcher.Executor.{
  Shared, Cursor, Phase, head, trying, leaving, stopped, receiving, committing, refused, saving,
  judging, Worker, Input, runs, block, reply, Config, go_on, step_judge, step_leave, step_in,
}
use reborn_launcher.Executor.Invariant.{IsAligned, PhaseOk, WorkerOk, SharedOk, IsHonest}
use reborn_launcher.Executor.Requests.{head-Keeps, trying-Keeps, block-Keeps, commit-Keeps}
use reborn_launcher.Executor.Steps.{Outcome, Guarantee-refl, moves, fails}

-- Two indices of one lane are a stride apart.
same_lane : (threads i j : ℕ) → i % threads ≡ j % threads → i ≤ j → j < i + threads → j ≡ i
same_lane threads i j e lo hi = grind (arith, mod-add-div' i threads, mod-add-div' j threads)

IsAligned-saved :
    (s : Shared) (i : ℕ) (chunks : Option (List ChunkRecord)) (cur : Cursor)
    → IsAligned s i cur
    → IsAligned (record s { saved = chunks }) i cur
IsAligned-saved s i chunks cur a = record {
  chunk = a.chunk;
  at_index = a.at_index;
  offset_is = a.offset_is;
  last_is = a.last_is;
  size_is = a.size_is;
}

module _ (content : ℕ → ℕ) (s : Shared) (i : ℕ) where
  -- No phase looks at the state file.
  PhaseOk-saved :
      (chunks : Option (List ChunkRecord)) (p : Phase)
      → PhaseOk content s i p
      → PhaseOk content (record s { saved = chunks }) i p
  PhaseOk-saved chunks (receiving cur) a = IsAligned-saved s i chunks cur a
  PhaseOk-saved chunks (committing cur m) (a, w) =
      (IsAligned-saved s i chunks cur a, record { fits = w.fits; written = w.written })
  PhaseOk-saved chunks (saving cs next) a = PhaseOk-saved chunks next a
  PhaseOk-saved chunks stopped a = a
  PhaseOk-saved chunks head a = tt
  PhaseOk-saved chunks trying a = tt
  PhaseOk-saved chunks leaving a = tt
  PhaseOk-saved chunks (refused cur) a = tt
  PhaseOk-saved chunks (judging r cur) a = tt

module _ {content : ℕ → ℕ} {n : ℕ} {cfg : Config} {t : ℕ} {s : Shared} {w : Worker}
    (ok : SharedOk content n s) (own : WorkerOk content cfg s t w) where
  abbrev Keeps : Shared × Worker → Type 0
  Keeps r = Outcome content n cfg t s w.index r

  go_on-Keeps : (cur : Cursor) → Keeps (go_on s w cur)
  unfolding go_on
  go_on-Keeps cur = elim (Option-cases (get_elem? s.chunks w.index)) [
    | inl e ↦ rw (e, go_on) (moves ok own w.attempt w.phase own.phase_ok)
    | inr (c, e) ↦ elim (Bool-cases c.done) [
      | inl done ↦ rw (e, go_on) (rw done (moves ok own w.attempt leaving tt))
      | inr partial ↦ elim (Bool-cases (cur.received == 0)) [
        | inl idle ↦ rw (e, go_on) (rw (partial, idle) (moves ok own (suc w.attempt) trying tt))
        | inr moved ↦ rw (e, go_on) (rw (partial, moved) (moves ok own w.attempt trying tt))
      ]
    ]
  ]

  judge-Keeps : (r : Option ℕ) (cur : Cursor) → Keeps (step_judge cfg s w r cur)
  unfolding step_judge
  judge-Keeps none cur = moves ok own (suc w.attempt) trying tt
  judge-Keeps (some status) cur = elim (Bool-cases (not (status == 206 || status == 200))) [
    | inl bad ↦ rw bad (moves ok own (suc w.attempt) trying tt)
    | inr fine ↦
        elim (Bool-cases
          (status == 200 && not (cur.first == 0 && (cur.last + 1) % u64_mod == cfg.remote_total))) [
            | inl whole ↦ rw (fine, whole) (fails ok own)
            | inr ranged ↦ rw (fine, ranged) (go_on-Keeps cur)
          ]
  ]

  -- The worker goes on to the next chunk of its lane.
  forward :
      (c : ChunkRecord)
      → get_elem? s.chunks w.index ≡ some c
      → c.done ≡ true
      → Keeps (s, record w { index = w.index + cfg.threads; phase = head })
  forward c e done = record {
    guarantee = Guarantee-refl s w.index;
    shared_ok = ok;
    own = record {
      lane = add-mod_right w.index cfg.threads ∙ own.lane;
      passed = λ j c' lt lane e'. elim (dec_lt j w.index) [
        | yes before ↦ own.passed j c' before lane e'
        | no after ↦
            let same : j ≡ w.index =
              same_lane cfg.threads w.index j (own.lane ∙ sym lane) (omega arith) lt in
            ground (arith, subst (λ k. get_elem? s.chunks k ≡ some c') same e')
      ];
      phase_ok = tt;
    };
  }

  leave-Keeps : Keeps (step_leave cfg s w)
  unfolding step_leave
  leave-Keeps = elim (Option-cases (get_elem? s.chunks w.index)) [
    | inl e ↦ rw (e, step_leave) (moves ok own w.attempt w.phase own.phase_ok)
    | inr (c, e) ↦ elim (Bool-cases c.done) [
      | inl done ↦ rw (e, step_leave) (rw done (forward c e done))
      | inr open_chunk ↦ rw (e, step_leave) (rw open_chunk (fails ok own))
    ]
  ]

  saves :
      (chunks : List ChunkRecord) (next : Phase) (b : Bool)
      → PhaseOk content s w.index next
      → Keeps (if b then record s { saved = some chunks } else s, record w { phase = next })
  saves chunks next false h = moves ok own w.attempt next h
  saves chunks next true h = record {
    guarantee = record {
      count = refl;
      others = λ j ne. refl;
      file_others = λ o h. refl;
      stays_failed = λ h. h;
      stays_done = λ c e h. h c e;
    };
    shared_ok = record { tiles = ok.tiles; small = ok.small; sized = ok.sized; good = ok.good };
    own = record {
      lane = own.lane;
      passed = own.passed;
      phase_ok = PhaseOk-saved content s w.index (some chunks) next h;
    };
  }

  -- A step of a worker whose environment is honest.
  pub step-Outcome :
      (p : Phase) (input : Input)
      → w.phase ≡ p
      → IsHonest content p input
      → Keeps (step_in cfg s w p input)
  unfolding step_in
  step-Outcome head (runs b) e h = head-Keeps ok own
  step-Outcome trying (runs b) e h = trying-Keeps ok own
  step-Outcome (receiving cur) (block bytes disk) e (fits, m) =
      block-Keeps ok own cur bytes disk (subst (PhaseOk content s w.index) e own.phase_ok) fits m e
  step-Outcome (receiving cur) (reply r) e h =
      moves ok own w.attempt (saving s.chunks (judging r cur)) tt
  step-Outcome (refused cur) (reply r) e h =
      moves ok own w.attempt (saving s.chunks (judging r cur)) tt
  step-Outcome (committing cur k) (runs b) e h =
      let facts = subst (PhaseOk content s w.index) e own.phase_ok in
      commit-Keeps ok own cur k facts.0 facts.1
  step-Outcome (saving chunks next) (runs b) e h =
      saves chunks next b (subst (PhaseOk content s w.index) e own.phase_ok)
  step-Outcome (judging r cur) (runs b) e h = judge-Keeps r cur
  step-Outcome leaving (runs b) e h = leave-Keeps
  step-Outcome _ _ e h = moves ok own w.attempt w.phase own.phase_ok
