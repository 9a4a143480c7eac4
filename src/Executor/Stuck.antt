-- ===== src/Executor/Stuck.antt =====
-- A stream that failed (ChunkExecutor.cpp): the chunk whose block it refused stays short for good.
use reborn_launcher.Base.{
  ℕ, ◌+◌, ◌-◌, ◌%◌, ◌≤◌, ◌<◌, ◌≡◌, ◌⊎◌, inl, inr, refl, subst, ◌∙◌, true, false, not, ◌&&◌, List,
  [], ◌∷◌, Option, none, some, arith, length, get_elem?, ltb, leb, Bool-cases, Option-cases,
  if-cases, u64_mod, ◌==◌, ◌||◌,
}
use reborn_launcher.Chunk.{ChunkRecord}
use reborn_launcher.Chunk.Tiling.{Tiles-range}
use reborn_launcher.Executor.{
  Shared, Cursor, Phase, head, trying, leaving, receiving, committing, refused, saving, judging,
  Worker, Input, Disk, stored, breaks, runs, block, reply, Config, max_attempts, is_good, step_head,
  request_rest, start_attempt, step_trying, store_bytes, step_block, step_commit, go_on, step_judge,
  step_leave, step_in,
}
use reborn_launcher.Executor.Invariant.{IsAligned, PhaseOk, WorkerOk, SharedOk, IsHonest}

-- Chunk `i` has bytes that do not count as downloaded.
abbrev pub IsShort : ℕ → List ChunkRecord → Type 0
IsShort i chunks =
    (c : ChunkRecord) × (get_elem? chunks i ≡ some c) × (c.downloaded < c.end - c.start + 1)

-- No block waits to be counted.
abbrev pub IsCalm : Phase → Type 0
IsCalm (committing _ _) = ⊥
IsCalm (saving _ next) = IsCalm next
IsCalm _ = Unit

module _ {content : ℕ → ℕ} {n : ℕ} {cfg : Config} {t : ℕ} {s : Shared} {w : Worker}
    (ok : SharedOk content n s) (own : WorkerOk content cfg s t w) where
  -- The step under which the stream fails.
  abbrev pub BreaksAt : Shared × Worker → Type 0
  BreaksAt r =
      (r.0.lost ≡ none) ⊎ (IsShort w.index r.0.chunks × (r.1.index ≡ w.index) × IsCalm r.1.phase)

  block-BreaksAt :
      (cur : Cursor) (bytes : List ℕ) (disk : Disk)
      → s.lost ≡ none
      → IsAligned s w.index cur
      → cur.offset + length bytes ≤ cur.last + 1
      → BreaksAt (step_block s w cur bytes disk)
  unfolding step_block store_bytes is_good
  block-BreaksAt cur [] disk fine a fits = inl fine
  block-BreaksAt cur (b ∷ bs) stored fine a fits = simp fine (inl refl)
  block-BreaksAt cur (b ∷ bs) (breaks f) fine a fits =
      let offset = a.offset_is in
      let last = a.last_is in
      let range = Tiles-range s.chunks 0 n w.index a.chunk ok.tiles a.at_index in
      let short : a.chunk.downloaded < a.chunk.end - a.chunk.start + 1 = omega arith in
      simp fine (inr ((a.chunk, a.at_index, short), refl, tt))

  -- Any other step, of a stream that failed.
  module _ (i : ℕ) (short : IsShort i s.chunks) (calm : w.index ≡ i → IsCalm w.phase)
      (broken : is_good s.lost ≡ false) where
    abbrev pub Stays : Shared × Worker → Type 0
    Stays r =
        (r.0.lost ≡ s.lost)
        × (r.1.index ≡ i → IsCalm r.1.phase)
        × (w.index ≡ i → IsShort i r.0.chunks)

    request_rest-Stays :
        (c : ChunkRecord) (size : ℕ)
        → get_elem? s.chunks w.index ≡ some c
        → size ≡ c.end - c.start + 1
        → Stays (request_rest s w c size)
    unfolding request_rest
    request_rest-Stays c size e size_is =
        if-cases Stays (leb size c.downloaded) _ _
          (λ full. (
            refl,
            λ _. tt,
            λ here.
                let e' = subst (λ k. get_elem? s.chunks k ≡ some c) here e in
                let same : c ≡ short.0 = ground (arith, short.1) in
                let lt = short.2 in absurd (ground (arith, same)),
          ))
          (λ _. (refl, λ _. tt, λ _. short))

    start_attempt-Stays :
        (c : ChunkRecord) → get_elem? s.chunks w.index ≡ some c → Stays (start_attempt s w c)
    unfolding start_attempt
    start_attempt-Stays c e =
        let range = Tiles-range s.chunks 0 n w.index c ok.tiles e in
        let small = ok.small in
        let size : (c.end - c.start + 1) % u64_mod ≡ c.end - c.start + 1 = omega arith in
        if-cases Stays c.done _ _ (λ _. (refl, λ _. tt, λ _. short))
          λ _.
            if-cases Stays (ltb c.end c.start) _ _ (λ _. (refl, λ _. tt, λ _. short))
              λ _. request_rest-Stays c _ e size

    trying-Stays : Stays (step_trying s w)
    unfolding step_trying
    trying-Stays = elim (Bool-cases (ltb w.attempt max_attempts && not s.failed)) [
      | inl go ↦ elim (Option-cases (get_elem? s.chunks w.index)) [
        | inl e ↦ rw go (rw (e, step_trying) (refl, calm, λ _. short))
        | inr (c, e) ↦ rw go (rw (e, step_trying) (start_attempt-Stays c e))
      ]
      | inr stop ↦ rw stop (refl, λ _. tt, λ _. short)
    ]

    head-Stays : Stays (step_head s w)
    unfolding step_head
    head-Stays =
        if-cases Stays (ltb w.index (length s.chunks) && not s.failed) _ _
          (λ _. (refl, λ _. tt, λ _. short)) (λ _. (refl, λ _. tt, λ _. short))

    block-Stays :
        (cur : Cursor) (bytes : List ℕ) (disk : Disk) → Stays (step_block s w cur bytes disk)
    unfolding step_block
    block-Stays cur [] disk = (refl, calm, λ _. short)
    block-Stays cur (b ∷ bs) disk = rw broken (refl, λ _. tt, λ _. short)

    commit-Stays :
        (cur : Cursor) (k : ℕ) → w.phase ≡ committing cur k → Stays (step_commit cfg s w cur k)
    unfolding step_commit
    commit-Stays cur k e = elim (Option-cases (get_elem? s.chunks w.index)) [
      | inl gone ↦ rw (gone, step_commit) (refl, calm, λ _. short)
      | inr (c, there) ↦
          rw (there, step_commit) (refl, λ _. tt, λ here. absurd (subst IsCalm e (calm here)))
    ]

    go_on-Stays : (cur : Cursor) → Stays (go_on s w cur)
    unfolding go_on
    go_on-Stays cur = elim (Option-cases (get_elem? s.chunks w.index)) [
      | inl e ↦ rw (e, go_on) (refl, calm, λ _. short)
      | inr (c, e) ↦
          rw (e, go_on)
            (if-cases Stays c.done _ _ (λ _. (refl, λ _. tt, λ _. short))
              λ _.
                if-cases Stays (cur.received == 0) _ _ (λ _. (refl, λ _. tt, λ _. short))
                  (λ _. (refl, λ _. tt, λ _. short)))
    ]

    judge-Stays : (r : Option ℕ) (cur : Cursor) → Stays (step_judge cfg s w r cur)
    unfolding step_judge
    judge-Stays none cur = (refl, λ _. tt, λ _. short)
    judge-Stays (some status) cur =
        if-cases Stays (not (status == 206 || status == 200)) _ _ (λ _. (refl, λ _. tt, λ _. short))
          λ _.
            if-cases Stays
              (status == 200
                && not (cur.first == 0 && (cur.last + 1) % u64_mod == cfg.remote_total))
              _ _ (λ _. (refl, λ _. tt, λ _. short)) (λ _. go_on-Stays cur)

    leave-Stays : Stays (step_leave cfg s w)
    unfolding step_leave
    leave-Stays = elim (Option-cases (get_elem? s.chunks w.index)) [
      | inl e ↦ rw (e, step_leave) (refl, calm, λ _. short)
      | inr (c, e) ↦
          rw (e, step_leave)
            (if-cases Stays c.done _ _ (λ _. (refl, λ _. tt, λ _. short))
              (λ _. (refl, λ _. tt, λ _. short)))
    ]

    pub step-Stays : (p : Phase) (input : Input) → w.phase ≡ p → Stays (step_in cfg s w p input)
    unfolding step_in
    step-Stays head (runs b) e = head-Stays
    step-Stays trying (runs b) e = trying-Stays
    step-Stays (receiving cur) (block bytes disk) e = block-Stays cur bytes disk
    step-Stays (receiving cur) (reply r) e = (refl, λ _. tt, λ _. short)
    step-Stays (refused cur) (reply r) e = (refl, λ _. tt, λ _. short)
    step-Stays (committing cur k) (runs b) e = commit-Stays cur k e
    step-Stays (saving chunks next) (runs true) e =
        (refl, λ here. subst IsCalm e (calm here), λ _. short)
    step-Stays (saving chunks next) (runs false) e =
        (refl, λ here. subst IsCalm e (calm here), λ _. short)
    step-Stays (judging r cur) (runs b) e = judge-Stays r cur
    step-Stays leaving (runs b) e = leave-Stays
    step-Stays _ _ e = (refl, calm, λ _. short)

  abbrev Holds : Shared × Worker → Type 0
  Holds r = r.0.lost ≡ s.lost

  trying-Holds : Holds (step_trying s w)
  unfolding step_trying start_attempt request_rest
  trying-Holds = ground arith

  commit-Holds : (cur : Cursor) (k : ℕ) → Holds (step_commit cfg s w cur k)
  unfolding step_commit
  commit-Holds cur k = ground arith

  judge-Holds : (r : Option ℕ) (cur : Cursor) → Holds (step_judge cfg s w r cur)
  unfolding step_judge go_on
  judge-Holds none cur = refl
  judge-Holds (some status) cur = ground arith

  -- The step under which a good stream fails, if it does.
  pub step-BreaksAt :
      (p : Phase) (input : Input)
      → w.phase ≡ p
      → IsHonest content p input
      → s.lost ≡ none
      → BreaksAt (step_in cfg s w p input)
  unfolding step_in step_head step_leave
  step-BreaksAt head (runs b) e h fine = inl (ground arith)
  step-BreaksAt trying (runs b) e h fine = inl (trying-Holds ∙ fine)
  step-BreaksAt (receiving cur) (block bytes disk) e (fits, m) fine =
      block-BreaksAt cur bytes disk fine (subst (PhaseOk content s w.index) e own.phase_ok) fits
  step-BreaksAt (receiving cur) (reply r) e h fine = inl fine
  step-BreaksAt (refused cur) (reply r) e h fine = inl fine
  step-BreaksAt (committing cur k) (runs b) e h fine = inl (commit-Holds cur k ∙ fine)
  step-BreaksAt (saving chunks next) (runs b) e h fine = inl (ground arith)
  step-BreaksAt (judging r cur) (runs b) e h fine = inl (judge-Holds r cur ∙ fine)
  step-BreaksAt leaving (runs b) e h fine = inl (ground arith)
  step-BreaksAt _ _ e h fine = inl fine
