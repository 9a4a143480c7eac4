-- ===== src/Web/Returns.antt =====
-- The worker of the asynchronous downloads of RebornLauncher/WebService.cpp comes to its end.
use reborn_launcher.Base.{
  ◌⊎◌, ℕ, zero, suc, ◌+◌, ◌*◌, ◌<◌, ◌≡◌, refl, ap, true, List, [], ◌∷◌, Option, none, some, length,
  Bool-cases, inl, inr, arith,
}
use reborn_launcher.Web.Queue.{AsyncTask, Service, async_worker_step, worker_from, take_task}

unfoldable pub async_worker_steps : ℕ → Service → Service
async_worker_steps zero s = s
async_worker_steps (suc n) s = async_worker_steps n (async_worker_step s)

abbrev pub held_work : Option AsyncTask → ℕ
held_work none = 0
held_work (some t) = 1

-- Two steps for each queued task, and one for the one that is held.
abbrev pub work_left : Service → ℕ
work_left s = 2 * length s.queue + held_work s.held

-- A step of a stopped worker that has not returned: it stays stopped, and returns or has less to do.
record Advances (s t : Service) : Type 0 where
  stopped : t.stop ≡ true
  less : (t.returned ≡ true) ⊎ (work_left t < work_left s)

take_task-Advances :
    (s : Service) (queue : List AsyncTask)
    → s.stop ≡ true
    → s.held ≡ none
    → s.queue ≡ queue
    → Advances s (take_task s queue)
unfolding take_task
take_task-Advances s [] stop held queue = simp stop (record { stopped = refl; less = inl refl })
take_task-Advances s (t ∷ rest) stop held queue =
    let long = ap (λ q. length q) queue in
    record { stopped = stop; less = inr (omega (arith, long)) }

worker_from-Advances :
    (s : Service) (o : Option AsyncTask) → s.stop ≡ true → s.held ≡ o → Advances s (worker_from s o)
unfolding worker_from
worker_from-Advances s none stop held = take_task-Advances s s.queue stop held refl
worker_from-Advances s (some t) stop held =
    let busy = ap held_work held in record { stopped = stop; less = inr (omega (arith, busy)) }

returned_stays :
    (n : ℕ) (s : Service) → s.returned ≡ true → (async_worker_steps n s).returned ≡ true
unfolding async_worker_steps async_worker_step
returned_stays zero s h = h
returned_stays (suc n) s h = simp h (returned_stays n s h)

-- A worker that was told to stop returns after two steps for each queued task, one for the task that
-- it holds, and one more.
pub async_worker_steps-returned :
    (n : ℕ) (s : Service)
    → s.stop ≡ true
    → work_left s < n
    → (async_worker_steps n s).returned ≡ true
unfolding async_worker_steps async_worker_step
async_worker_steps-returned zero s stop enough = absurd (omega arith)
async_worker_steps-returned (suc n) s stop enough = elim (Bool-cases s.returned) [
  | inl ended ↦ simp ended (returned_stays n s ended)
  | inr running ↦
      let a = worker_from-Advances s s.held stop refl in
      simp running (elim a.less [
        | inl ended ↦ returned_stays n (worker_from s s.held) ended
        | inr less ↦ async_worker_steps-returned n (worker_from s s.held) a.stopped (omega arith)
      ])
]
