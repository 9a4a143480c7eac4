-- ===== src/Deferred/Queue.antt =====
-- The queue of deferred updates and the set of its keys (DownloadResume.cpp).
use reborn_launcher.Base.{
  inr, inl, ℕ, subst, if◌then◌else◌, u64_mod, inl, inr, ◌⊎◌, ◌+◌, ◌^◌, ◌≡◌, ◌≤◌, ◌<◌, refl, sym,
  ◌∙◌, ap, Bool, false, not, ◌||◌, List, [], ◌∷◌, ◌++◌, Option, none, some, arith, Bool-cases,
  text_eq, text_eq_iff, text_eq_refl, Text, All,
}
use reborn_launcher.Deferred.{
  Task, Deferred, key_of, member, erase, redirect, find_due, is_empty_text, enqueue, normalize_key,
  take_due, without, requeue, retried, Op, enqueues, takes, requeues, after_take, apply_op, run_ops,
  process_deferred, process_taken, Probe, is_file_busy_for_write, compute_deferred_retry_delay_ms,
}
use reborn_launcher.Deferred.Keys.{
  keys, IsDistinct, member-erase, member-append, append-IsDistinct, keys-append, keys-redirect,
  find_due-Found, Found,
}

-- No two tasks have the same key, none has the empty one, and the set holds the keys of the queue.
pub record IsConsistent (d : Deferred) : Type 0 where
  pub distinct : IsDistinct (keys d.queue)
  pub named : member [] (keys d.queue) ≡ false
  pub same : (k : Text) → member k d.queued_paths ≡ member k (keys d.queue)

is_empty_text_eq : (k : Text) → is_empty_text k ≡ text_eq k []
unfolding is_empty_text text_eq
is_empty_text_eq [] = refl
is_empty_text_eq (x ∷ k) = refl

-- A task with a new key goes to the back of the queue.
push-IsConsistent :
    (d : Deferred) (t : Task)
    → IsConsistent d
    → is_empty_text (key_of t) ≡ false
    → member (key_of t) d.queued_paths ≡ false
    → IsConsistent (record { queue = d.queue ++ t ∷ []; queued_paths = key_of t ∷ d.queued_paths })
unfolding member
push-IsConsistent d t ok filled fresh =
    let more = keys-append d.queue t in
    let new = sym (ok.same (key_of t)) ∙ fresh in
    record {
      distinct = rw more (append-IsDistinct (key_of t) (keys d.queue) ok.distinct new);
      named =
          rw (more, member-append [] (key_of t) (keys d.queue), ok.named)
            (sym (is_empty_text_eq (key_of t)) ∙ filled);
      same = λ k. rw more (ground (arith, member-append k (key_of t) (keys d.queue), ok.same k));
    }

redirect-IsConsistent :
    (k url : Text) (owner : ℕ) (d : Deferred)
    → IsConsistent d
    → IsConsistent (record d { queue = redirect k url owner d.queue })
redirect-IsConsistent k url owner d ok =
    let kept = keys-redirect k url owner d.queue in
    record {
      distinct = rw kept ok.distinct;
      named = rw kept ok.named;
      same = λ j. rw kept (ok.same j);
    }

enqueue-IsConsistent :
    (now : ℕ) (url path : Text) (owner : ℕ) (d : Deferred)
    → IsConsistent d
    → IsConsistent (enqueue now url path owner d).0
unfolding enqueue
enqueue-IsConsistent now url path owner d ok =
    elim (Bool-cases (is_empty_text (normalize_key path))) [
      | inl unnamed ↦ rw unnamed ok
      | inr named ↦ elim (Bool-cases (member (normalize_key path) d.queued_paths)) [
        | inl queued ↦
            rw (named, queued) (redirect-IsConsistent (normalize_key path) url owner d ok)
        | inr new ↦ rw (named, new) (push-IsConsistent d _ ok named new)
      ]
    ]

take-IsConsistent :
    (now : ℕ) (d : Deferred) (o : Option (Task × List Task))
    → Found now d.queue o
    → IsConsistent d
    → IsConsistent (after_take d (without d o))
unfolding after_take
take-IsConsistent now d none found ok = ok
take-IsConsistent now d (some (t, rest)) found ok =
    let (rest_distinct, away) = found.distinct ok.distinct in
    record {
      distinct = rest_distinct;
      named = ground (arith, found.members [], ok.named);
      same = λ k.
          let out = member-erase (key_of t) k d.queued_paths in
          let split = found.members k in
          elim (Bool-cases (text_eq (key_of t) k)) [
            | inl here ↦
                let eq : key_of t ≡ k = (text_eq_iff (key_of t) k).0 here in
                let gone : member k (keys rest) ≡ false =
                  subst (λ j. member j (keys rest) ≡ false) eq away in
                ground (arith, out, here)
            | inr other ↦ ground (arith, out, ok.same k, split)
          ];
    }

requeue-IsConsistent :
    (later : ℕ) (t : Task) (d : Deferred) → IsConsistent d → IsConsistent (requeue later t d)
unfolding requeue retried
requeue-IsConsistent later t d ok = elim (Bool-cases (is_empty_text (key_of t))) [
  | inl unnamed ↦ rw unnamed ok
  | inr named ↦ elim (Bool-cases (member (key_of t) d.queued_paths)) [
    | inl queued ↦ rw (named, queued) ok
    | inr new ↦ rw (named, new) (push-IsConsistent d (retried later t) ok named new)
  ]
]

apply_op-IsConsistent : (op : Op) (d : Deferred) → IsConsistent d → IsConsistent (apply_op op d)
unfolding apply_op take_due
apply_op-IsConsistent (enqueues now url path owner) d ok =
    enqueue-IsConsistent now url path owner d ok
apply_op-IsConsistent (takes now) d ok =
    take-IsConsistent now d (find_due now d.queue) (find_due-Found now d.queue) ok
apply_op-IsConsistent (requeues later t) d ok = requeue-IsConsistent later t d ok

-- Whatever the threads do to the queue of deferred updates, and in whatever order their locked
-- sections follow each other, no two tasks of the queue stand for the same file, none for an empty
-- path, and the set of queued paths holds exactly the keys of the queue.
pub run_ops-IsConsistent :
    (ops : List Op) (d : Deferred) → IsConsistent d → IsConsistent (run_ops ops d)
unfolding run_ops
run_ops-IsConsistent [] d ok = ok
run_ops-IsConsistent (op ∷ ops) d ok =
    run_ops-IsConsistent ops (apply_op op d) (apply_op-IsConsistent op d ok)

-- What a run of `ProcessDeferredFileUpdates` does to a task that it took: it leaves, or it stands
-- at the back with a later time and one more attempt.
abbrev pub after_attempt : ℕ → Probe → Bool → Task → List Task → List Task
after_attempt later probe fetched t rest =
    if is_file_busy_for_write probe || not fetched then rest ++ retried later t ∷ [] else rest

-- The specification of a run on the queue alone.
abbrev pub spec_queue : ℕ → Probe → Bool → List Task → Option (Task × List Task) → List Task
spec_queue later probe fetched ts none = ts
spec_queue later probe fetched ts (some (t, rest)) = after_attempt later probe fetched t rest

process-queue :
    (later : ℕ) (probe : Probe) (fetched : Bool) (d : Deferred) (now : ℕ)
    (o : Option (Task × List Task))
    → Found now d.queue o
    → IsConsistent d
    → (process_taken later probe fetched d (without d o)).queue
      ≡ spec_queue later probe fetched d.queue o
unfolding process_taken requeue retried
process-queue later probe fetched d now none found ok = refl
process-queue later probe fetched d now (some (t, rest)) found ok =
    let (_, away) = found.distinct ok.distinct in
    let split = found.members [] in
    let named : is_empty_text (key_of t) ≡ false =
      is_empty_text_eq (key_of t) ∙ ground (arith, split, ok.named) in
    let after = take-IsConsistent now d (some (t, rest)) found ok in
    let new : member (key_of t) (erase (key_of t) d.queued_paths) ≡ false =
      member-erase (key_of t) (key_of t) d.queued_paths ∙ ground (arith, text_eq_refl (key_of t)) in
    elim (Bool-cases (is_file_busy_for_write probe || not fetched)) [
      | inl fails ↦ rw (fails, named, new) refl
      | inr done ↦ rw done refl
    ]

process-IsConsistent :
    (later : ℕ) (probe : Probe) (fetched : Bool) (d : Deferred) (now : ℕ)
    (o : Option (Task × List Task))
    → Found now d.queue o
    → IsConsistent d
    → IsConsistent (process_taken later probe fetched d (without d o))
unfolding process_taken after_take
process-IsConsistent later probe fetched d now none found ok = ok
process-IsConsistent later probe fetched d now (some (t, rest)) found ok =
    let taken = take-IsConsistent now d (some (t, rest)) found ok in
    elim (Bool-cases (is_file_busy_for_write probe || not fetched)) [
      | inl fails ↦ rw fails (requeue-IsConsistent later t _ taken)
      | inr done ↦ rw done taken
    ]

process-cases :
    (later : ℕ) (probe : Probe) (fetched : Bool) (d : Deferred) (now : ℕ)
    (o : Option (Task × List Task))
    → Found now d.queue o
    → IsConsistent d
    → let d' = process_taken later probe fetched d (without d o) in
      (All (λ u. now < u.next_retry) d.queue × (d'.queue ≡ d.queue))
      ⊎ ((t : Task) × (before : List Task) × (after : List Task) × (d.queue ≡ before ++ t ∷ after)
          × All (λ u. now < u.next_retry) before
          × (t.next_retry ≤ now)
          × (d'.queue ≡ after_attempt later probe fetched t (before ++ after)))
process-cases later probe fetched d now none found ok =
    inl (found, process-queue later probe fetched d now none found ok)
process-cases later probe fetched d now (some (t, rest)) found ok = inr (
  t,
  found.before,
  found.after,
  found.whole,
  found.not_due,
  found.due,
  process-queue later probe fetched d now (some (t, rest)) found ok
      ∙ ap (λ ts. after_attempt later probe fetched t ts) found.others,
)

-- One run of `ProcessDeferredFileUpdates`, whatever the system answers: if no task is due, nothing
-- changes. Else the first task that is due is taken; if its file is free and the download succeeds,
-- it is gone, and if not it stands at the back with one more attempt and a later time. All other
-- tasks stay as they are, in their order, and the set still holds the keys of the queue.
pub process_deferred_lem :
    (now later : ℕ) (probe : Probe) (fetched : Bool) (d : Deferred)
    → IsConsistent d
    → let d' = process_deferred now later probe fetched d in
      IsConsistent d'
      × ((All (λ u. now < u.next_retry) d.queue × (d'.queue ≡ d.queue))
          ⊎ ((t : Task) × (before : List Task) × (after : List Task) × (d.queue
                ≡ before ++ t ∷ after)
              × All (λ u. now < u.next_retry) before
              × (t.next_retry ≤ now)
              × (d'.queue ≡ after_attempt later probe fetched t (before ++ after))))
unfolding process_deferred take_due
process_deferred_lem now later probe fetched d ok =
    let o = find_due now d.queue in
    let found = find_due-Found now d.queue in
    (
      process-IsConsistent later probe fetched d now o found ok,
      process-cases later probe fetched d now o found ok,
    )

-- Without wrap-around of the tick or of the counter, a task that failed waits between 2.5 and 15
-- seconds, never less after more failures, and 15 seconds from the 14th failure on.
pub retried-delay :
    (later : ℕ) (t u : Task)
    → later + 15000 < u64_mod
    → t.retry_count ≤ u.retry_count
    → u.retry_count + 1 < 2 ^ 32
    → (later + 2500 ≤ (retried later t).next_retry)
      × ((retried later t).next_retry ≤ (retried later u).next_retry)
      × ((retried later u).next_retry ≤ later + 15000)
      × (13 ≤ t.retry_count → (retried later t).next_retry ≡ later + 15000)
unfolding retried compute_deferred_retry_delay_ms
retried-delay later t u small le fits = omega arith
