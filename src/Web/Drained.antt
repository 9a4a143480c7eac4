-- ===== src/Web/Drained.antt =====
-- The histories of the asynchronous downloads of RebornLauncher/WebService.cpp.
use reborn_launcher.Base.{
  text_eq_iff, ◌≡◌, refl, sym, ◌∙◌, ap, subst, Bool, true, false, not, ◌&&◌, List, [], ◌∷◌, ◌++◌,
  Option, none, some, if◌then◌else◌, if-cases, Bool-cases, inl, inr, Text, text_eq, arith,
  append_assoc,
}
use reborn_launcher.Deferred.{member, erase}
use reborn_launcher.Deferred.Keys.{IsDistinct, member-erase}
use reborn_launcher.Web.{async_queue_key}
use reborn_launcher.Web.Queue.{AsyncTask, Service, async_worker_step, worker_from, take_task}
use reborn_launcher.Web.Steps.{
  held_list, pending, task_keys, Step, queues, refuses, works, stops, Reaches, starts, later,
  IsSound, append-nil, same-IsSound, queues-IsSound, refuses-IsSound, stops-IsSound,
}

-- What is left of a set when its first key is taken out.
others :
    (key k : Text) (keys : List Text) (known : Bool)
    → known ≡ member k (key ∷ keys)
    → member key keys ≡ false
    → (known && not (text_eq key k)) ≡ member k keys
unfolding member
others key k keys known h fresh = elim (Bool-cases (text_eq key k)) [
  | inl same ↦
      let gone = subst (λ i. member i keys ≡ false) ((text_eq_iff key k).0 same) fresh in
      ground (arith, h)
  | inr apart ↦ ground (arith, h)
]

-- The worker's step, by what it holds and what is queued.
finish-IsSound :
    (s : Service) (t : AsyncTask) (accepted done : List AsyncTask)
    → s.held ≡ some t
    → s.returned ≡ false
    → IsSound s accepted done
    → IsSound
        (record s { held = none; queued_pages = erase (async_queue_key t.page) s.queued_pages })
        (accepted ++ [])
        (done ++ t ∷ [])
finish-IsSound s t accepted done held running h =
    let whole : pending s ≡ t ∷ s.queue = ap (λ o. held_list o ++ s.queue) held in
    let key = async_queue_key t.page in
    let once = subst (λ ts. IsDistinct (task_keys ts)) whole h.once in
    let left_over : (k : Text)
        → (member k s.queued_pages && not (text_eq key k)) ≡ member k (task_keys s.queue) =
      λ k.
        others key k (task_keys s.queue) (member k s.queued_pages)
          (h.known k ∙ ap (λ ts. member k (task_keys ts)) whole) once.0 in
    record {
      history =
          append-nil accepted
          ∙ h.history
          ∙ ap (λ l. done ++ l) whole
          ∙ sym (append_assoc done (t ∷ []) s.queue);
      once = once.1;
      known = λ k. member-erase key k s.queued_pages ∙ left_over k;
      ended = λ r. let stays = r in cc;
    }

-- The worker takes the first task, which stays pending.
take-IsSound :
    (s : Service) (t : AsyncTask) (rest accepted done : List AsyncTask)
    → s.held ≡ none
    → s.queue ≡ t ∷ rest
    → s.returned ≡ false
    → IsSound s accepted done
    → IsSound (record s { queue = rest; held = some t }) (accepted ++ []) (done ++ [])
take-IsSound s t rest accepted done held queue running h =
    let idle : pending s ≡ s.queue = ap (λ o. held_list o ++ s.queue) held in
    let whole : pending s ≡ t ∷ rest = idle ∙ queue in
    same-IsSound (record s { queue = rest; held = some t }) accepted done
      (record {
        history = h.history ∙ ap (λ l. done ++ l) whole;
        once = subst (λ ts. IsDistinct (task_keys ts)) whole h.once;
        known = λ k. h.known k ∙ ap (λ ts. member k (task_keys ts)) whole;
        ended = λ r. let stays = r in cc;
      })

return-IsSound :
    (s : Service) (accepted done : List AsyncTask)
    → s.held ≡ none
    → s.queue ≡ []
    → s.stop ≡ true
    → IsSound s accepted done
    → IsSound (record s { returned = true }) accepted done
return-IsSound s accepted done held queue stopped h =
    let idle : pending s ≡ s.queue = ap (λ o. held_list o ++ s.queue) held in
    record {
      history = h.history;
      once = h.once;
      known = h.known;
      ended = λ r. (idle ∙ queue, stopped);
    }

take_task-IsSound :
    (s : Service) (queue accepted done : List AsyncTask)
    → s.held ≡ none
    → s.queue ≡ queue
    → s.returned ≡ false
    → IsSound s accepted done
    → IsSound (take_task s queue) (accepted ++ []) (done ++ [])
unfolding take_task
take_task-IsSound s [] accepted done held queue running h =
    if-cases (λ (t : Service). IsSound t (accepted ++ []) (done ++ [])) s.stop _ _
      (λ stopped.
        same-IsSound (record s { returned = true }) accepted done
          (return-IsSound s accepted done held queue stopped h))
      (λ _. same-IsSound s accepted done h)
take_task-IsSound s (t ∷ rest) accepted done held queue running h =
    take-IsSound s t rest accepted done held queue running h

worker_from-IsSound :
    (s : Service) (o : Option AsyncTask) (accepted done : List AsyncTask)
    → s.held ≡ o
    → s.returned ≡ false
    → IsSound s accepted done
    → IsSound (worker_from s o) (accepted ++ []) (done ++ held_list o)
unfolding worker_from
worker_from-IsSound s none accepted done held running h =
    take_task-IsSound s s.queue accepted done held refl running h
worker_from-IsSound s (some t) accepted done held running h =
    finish-IsSound s t accepted done held running h

works-IsSound :
    (s : Service) (accepted done : List AsyncTask)
    → IsSound s accepted done
    → IsSound
        (async_worker_step s)
        (accepted ++ [])
        (done ++ (if s.returned then [] else held_list s.held))
unfolding async_worker_step
works-IsSound s accepted done h = elim (Bool-cases s.returned) [
  | inl ended ↦ simp ended (same-IsSound s accepted done h)
  | inr running ↦ simp running (worker_from-IsSound s s.held accepted done refl running h)
]

nothing : (k : Text) → member k [] ≡ member k (task_keys [])
nothing k = refl

Step-IsSound :
    {s t : Service} {a d : List AsyncTask} (accepted done : List AsyncTask)
    → Step s t a d
    → IsSound s accepted done
    → IsSound t (accepted ++ a) (done ++ d)
Step-IsSound {s = s} accepted done (queues page pid running queued) h =
    queues-IsSound s page pid accepted done running queued h
Step-IsSound {s = s} accepted done (refuses page pid running refused) h =
    refuses-IsSound s page pid accepted done refused h
Step-IsSound {s = s} accepted done works h = works-IsSound s accepted done h
Step-IsSound {s = s} accepted done stops h = stops-IsSound s accepted done h

-- After any steps of the handlers, the worker and the end of the service: the tasks accepted so far
-- are, in order, those that the worker finished, the one it holds and those in the queue; no two of
-- the pending ones have the same key; the set has exactly their keys; and once the worker has
-- returned, the service was stopped and nothing is pending, so every accepted task was finished, once
-- and in order.
pub Reaches-IsSound :
    {s : Service} {accepted done : List AsyncTask}
    → Reaches s accepted done
    → IsSound s accepted done
Reaches-IsSound starts = record {
  history = refl;
  once = tt;
  known = λ k. nothing k;
  ended = λ r. cc;
}
Reaches-IsSound (later {accepted = accepted} {done = done} before step) =
    Step-IsSound accepted done step (Reaches-IsSound before)
