-- ===== src/Tests/Queues.antt =====
-- Runs of the queue of deferred updates (DownloadResume.cpp).
use reborn_launcher.Base.{
  ◌≡◌, ◌≤◌, ◌<◌, ◌+◌, ◌⊎◌, refl, true, false, List, [], ◌∷◌, ◌++◌, some, arith, All, Text, text_eq,
}
use reborn_launcher.Deferred.{
  Task, Deferred, apply_op, find_due, lower_char, back_slash, erase, Probe, Op, enqueues, takes,
  requeues, run_ops, process_deferred, member, normalize_key, retried,
}
use reborn_launcher.Deferred.Queue.{
  IsConsistent, run_ops-IsConsistent, process_deferred_lem, after_attempt, retried-delay,
}

abbrev nothing : Deferred
nothing = record { queue = []; queued_paths = [] }

nothing-IsConsistent : IsConsistent nothing
unfolding member
nothing-IsConsistent = record { distinct = tt; named = refl; same = λ k. refl }

-- "Data/a.nx", and "data\A.NX".
abbrev path_one : Text
path_one = 68 ∷ 47 ∷ 97 ∷ []

abbrev path_two : Text
path_two = 100 ∷ 92 ∷ 65 ∷ []

abbrev failed : Task
failed = record {
  remote_url = 1 ∷ [];
  local_path = path_one;
  owner = 5;
  retry_count = 0;
  next_retry = 1000;
}

abbrev moves : List Op
moves =
    enqueues 0 (1 ∷ []) path_one 5
    ∷ enqueues 10 (2 ∷ []) path_two 6
    ∷ takes 1000
    ∷ enqueues 1001 (3 ∷ []) path_two 7
    ∷ requeues 1002 failed
    ∷ []

-- Both paths have one key, so that the second one redirects, and the failed task gives way.
one_task_left :
    (run_ops moves nothing).queue
    ≡ record {
      remote_url = 3 ∷ [];
      local_path = path_two;
      owner = 7;
      retry_count = 0;
      next_retry = 2001;
    }
      ∷ []
unfolding run_ops apply_op normalize_key find_due text_eq lower_char back_slash erase
one_task_left = refl

run_ops-IsConsistent_example : IsConsistent (run_ops moves nothing)
run_ops-IsConsistent_example = run_ops-IsConsistent moves nothing nothing-IsConsistent

abbrev busy : Probe
busy = record { exists = true; open_error = some 32; still_exists = true }

abbrev one_waits : Deferred
one_waits = record { queue = failed ∷ []; queued_paths = normalize_key path_one ∷ [] }

one_waits-IsConsistent : IsConsistent one_waits
unfolding member normalize_key text_eq
one_waits-IsConsistent = record { distinct = (refl, tt); named = refl; same = λ k. refl }

process_deferred_lem_example :
    let d' = process_deferred 1000 1001 busy false one_waits in
    IsConsistent d'
    × ((All (λ u. 1000 < u.next_retry) one_waits.queue × (d'.queue ≡ one_waits.queue))
        ⊎ ((t : Task) × (before : List Task) × (after : List Task) × (one_waits.queue
              ≡ before ++ t ∷ after)
            × All (λ u. 1000 < u.next_retry) before
            × (t.next_retry ≤ 1000)
            × (d'.queue ≡ after_attempt 1001 busy false t (before ++ after))))
process_deferred_lem_example =
    process_deferred_lem 1000 1001 busy false one_waits one_waits-IsConsistent

retried-delay_example :
    let again = record failed { retry_count = 20 } in
    (1001 + 2500 ≤ (retried 1001 failed).next_retry)
    × ((retried 1001 failed).next_retry ≤ (retried 1001 again).next_retry)
    × ((retried 1001 again).next_retry ≤ 1001 + 15000)
    × (13 ≤ failed.retry_count → (retried 1001 failed).next_retry ≡ 1001 + 15000)
retried-delay_example =
    retried-delay 1001 failed (record failed { retry_count = 20 }) (omega arith) (omega arith)
      (omega arith)
