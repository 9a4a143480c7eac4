-- ===== src/Web/Steps.antt =====
-- The steps of the asynchronous downloads of RebornLauncher/WebService.cpp, and what the handlers keep.
use reborn_launcher.Base.{
  ℕ, ◌≡◌, refl, sym, ◌∙◌, ap, subst, true, false, List, [], ◌∷◌, ◌++◌, Option, none, some, map,
  if◌then◌else◌, Bool-cases, inl, inr, Text, arith, append_assoc,
}
use reborn_launcher.Deferred.{member}
use reborn_launcher.Deferred.Keys.{IsDistinct, member-append, append-IsDistinct}
use reborn_launcher.Web.{async_queue_key}
use reborn_launcher.Web.Queue.{
  AsyncTask, Service, initial, enqueue_page, async_worker_step, stop_worker,
}

abbrev pub held_list : Option AsyncTask → List AsyncTask
held_list none = []
held_list (some t) = t ∷ []

-- The tasks that are queued or held, in order.
abbrev pub pending : Service → List AsyncTask
pending s = held_list s.held ++ s.queue

abbrev pub task_keys : List AsyncTask → List Text
task_keys ts = map (λ t. async_queue_key t.page) ts

-- A step, the tasks that it accepts, and those that it finishes. Handlers run before the stop.
pub data Step (s : Service) : Service → List AsyncTask → List AsyncTask → Type 0 where
  queues :
      (page : Text) (pid : ℕ)
      → s.stop ≡ false
      → (enqueue_page page pid s).1 ≡ true
      → Step s (enqueue_page page pid s).0 (record { page = page; pid = pid } ∷ []) []
  refuses :
      (page : Text) (pid : ℕ)
      → s.stop ≡ false
      → (enqueue_page page pid s).1 ≡ false
      → Step s (enqueue_page page pid s).0 [] []
  works : Step s (async_worker_step s) [] (if s.returned then [] else held_list s.held)
  stops : Step s (stop_worker s) [] []

pub data Reaches : Service → List AsyncTask → List AsyncTask → Type 0 where
  starts : Reaches initial [] []
  later :
      {s t : Service} {accepted done a d : List AsyncTask}
      → Reaches s accepted done
      → Step s t a d
      → Reaches t (accepted ++ a) (done ++ d)

pub record IsSound (s : Service) (accepted done : List AsyncTask) : Type 0 where
  pub history : accepted ≡ done ++ pending s
  pub once : IsDistinct (task_keys (pending s))
  pub known : (k : Text) → member k s.queued_pages ≡ member k (task_keys (pending s))
  pub ended : s.returned ≡ true → (pending s ≡ []) × (s.stop ≡ true)

pub append-nil {ℓ} : {A : Type ℓ} (xs : List A) → xs ++ [] ≡ xs
append-nil [] = refl
append-nil (x ∷ xs) = ap (λ l. x ∷ l) (append-nil xs)

task_keys-append :
    (ts : List AsyncTask) (t : AsyncTask)
    → task_keys (ts ++ t ∷ []) ≡ task_keys ts ++ async_queue_key t.page ∷ []
task_keys-append [] t = refl
task_keys-append (u ∷ ts) t = ap (λ ks. async_queue_key u.page ∷ ks) (task_keys-append ts t)

-- A page whose key is not known is queued.
new-IsSound :
    (s : Service) (t : AsyncTask) (accepted done : List AsyncTask)
    → s.stop ≡ false
    → member (async_queue_key t.page) s.queued_pages ≡ false
    → IsSound s accepted done
    → IsSound
        (record s {
          queue = s.queue ++ t ∷ [];
          queued_pages = async_queue_key t.page ∷ s.queued_pages;
        })
        (accepted ++ t ∷ [])
        (done ++ [])
unfolding member
new-IsSound s t accepted done running new h =
    let key = async_queue_key t.page in
    let grown : held_list s.held ++ (s.queue ++ t ∷ []) ≡ pending s ++ t ∷ [] =
      sym (append_assoc (held_list s.held) s.queue (t ∷ [])) in
    let keys = ap task_keys grown ∙ task_keys-append (pending s) t in
    record {
      history =
          ap (λ l. l ++ t ∷ []) h.history
          ∙ append_assoc done (pending s) (t ∷ [])
          ∙ ap (λ l. done ++ l) (sym grown)
          ∙ ap (λ d. d ++ (held_list s.held ++ (s.queue ++ t ∷ []))) (sym (append-nil done));
      once =
          simp keys
            (append-IsDistinct key (task_keys (pending s)) h.once (sym (h.known key) ∙ new));
      known =
          λ k. simp keys (ground (arith, h.known k, member-append k key (task_keys (pending s))));
      ended = λ r. let stopped = (h.ended r).1 in cc;
    }

-- The state is the same, and nothing was accepted or finished.
pub same-IsSound :
    (s : Service) (accepted done : List AsyncTask)
    → IsSound s accepted done
    → IsSound s (accepted ++ []) (done ++ [])
same-IsSound s accepted done h =
    subst (λ a. IsSound s a (done ++ [])) (sym (append-nil accepted))
      (subst (λ d. IsSound s accepted d) (sym (append-nil done)) h)

pub queues-IsSound :
    (s : Service) (page : Text) (pid : ℕ) (accepted done : List AsyncTask)
    → s.stop ≡ false
    → (enqueue_page page pid s).1 ≡ true
    → IsSound s accepted done
    → IsSound
        (enqueue_page page pid s).0
        (accepted ++ record { page = page; pid = pid } ∷ [])
        (done ++ [])
unfolding enqueue_page
queues-IsSound s page pid accepted done running queued h =
    elim (Bool-cases (member (async_queue_key page) s.queued_pages)) [
      | inl old ↦ absurd (subst (λ b. elim b [ true ↦ ⊥ | false ↦ Unit ]) (rw old at queued) tt)
      | inr new ↦
          simp new (new-IsSound s (record { page = page; pid = pid }) accepted done running new h)
    ]

pub refuses-IsSound :
    (s : Service) (page : Text) (pid : ℕ) (accepted done : List AsyncTask)
    → (enqueue_page page pid s).1 ≡ false
    → IsSound s accepted done
    → IsSound (enqueue_page page pid s).0 (accepted ++ []) (done ++ [])
unfolding enqueue_page
refuses-IsSound s page pid accepted done refused h =
    elim (Bool-cases (member (async_queue_key page) s.queued_pages)) [
      | inl old ↦ simp old (same-IsSound s accepted done h)
      | inr new ↦ absurd (subst (λ b. elim b [ true ↦ Unit | false ↦ ⊥ ]) (rw new at refused) tt)
    ]

pub stops-IsSound :
    (s : Service) (accepted done : List AsyncTask)
    → IsSound s accepted done
    → IsSound (stop_worker s) (accepted ++ []) (done ++ [])
unfolding stop_worker
stops-IsSound s accepted done h =
    same-IsSound (record s { stop = true }) accepted done
      (record {
        history = h.history;
        once = h.once;
        known = h.known;
        ended = λ r. ((h.ended r).0, refl);
      })
