-- ===== src/Deferred.antt =====
-- The updates of files that are in use (DownloadResume.cpp): the queue that
-- `EnqueueDeferredFileUpdate` fills and `ProcessDeferredFileUpdates` works off. Ticks are 64-bit, retry
-- counts 32-bit, and a std::unordered_set of keys is a list that is only asked for membership.
pub mod Keys
pub mod Queue
use reborn_launcher.Base.{
  ℕ, ◌+◌, ◌*◌, ◌%◌, ◌^◌, min, Bool, true, false, not, ◌&&◌, ◌||◌, List, [], ◌∷◌, ◌++◌, Option, none,
  some, map, ltb, leb, ◌==◌, if◌then◌else◌, text_eq, Text, u64_mod,
}

unfoldable pub lower_char : ℕ → ℕ
lower_char c = if leb 65 c && leb c 90 then c + 32 else c

-- `ToLowerAscii`.
unfoldable pub to_lower_ascii : Text → Text
to_lower_ascii s = map lower_char s

unfoldable pub back_slash : ℕ → ℕ
back_slash c = if c == 47 then 92 else c

-- `NormalizeDeferredQueueKey`.
unfoldable pub normalize_key : Text → Text
unfolding to_lower_ascii
normalize_key s = to_lower_ascii (map back_slash s)

-- ERROR_SHARING_VIOLATION, ERROR_LOCK_VIOLATION and ERROR_USER_MAPPED_FILE.
unfoldable pub is_file_busy_error : ℕ → Bool
is_file_busy_error e = e == 32 || e == 33 || e == 1224

-- What the system answers about the file: whether it exists, how it opens (`some e`: the error),
-- and whether it exists afterwards.
pub record Probe : Type 0 where
  pub exists : Bool
  pub open_error : Option ℕ
  pub still_exists : Bool

busy_by_error : Bool → Option ℕ → Bool
unfolding is_file_busy_error
busy_by_error still none = false
busy_by_error still (some e) = is_file_busy_error e || (e == 5 && still)

unfoldable pub is_file_busy_for_write : Probe → Bool
unfolding busy_by_error
is_file_busy_for_write p = p.exists && busy_by_error p.still_exists p.open_error

-- `ComputeDeferredRetryDelayMs`, in milliseconds.
unfoldable pub compute_deferred_retry_delay_ms : ℕ → ℕ
compute_deferred_retry_delay_ms retries = min (1500 + min retries 20 * 1000) 15000

pub record Task : Type 0 where
  pub remote_url : Text
  pub local_path : Text
  pub owner : ℕ
  pub retry_count : ℕ
  pub next_retry : ℕ

pub record Deferred : Type 0 where
  pub queue : List Task
  pub queued_paths : List Text

abbrev pub key_of : Task → Text
key_of t = normalize_key t.local_path

unfoldable pub member : Text → List Text → Bool
member k [] = false
member k (x ∷ xs) = text_eq x k || member k xs

unfoldable pub erase : Text → List Text → List Text
erase k [] = []
erase k (x ∷ xs) = let rest = erase k xs in if text_eq x k then rest else x ∷ rest

unfoldable pub is_empty_text : Text → Bool
is_empty_text [] = true
is_empty_text (_ ∷ _) = false

-- The first task with the key gets a new URL and owner.
unfoldable pub redirect : Text → Text → ℕ → List Task → List Task
redirect key url owner [] = []
redirect key url owner (t ∷ ts) =
    let rest = redirect key url owner ts in
    if text_eq (key_of t) key then record t { remote_url = url; owner = owner } ∷ ts else t ∷ rest

-- `EnqueueDeferredFileUpdate` at tick `now`, and what it returns.
unfoldable pub enqueue : ℕ → Text → Text → ℕ → Deferred → Deferred × Bool
unfolding is_empty_text redirect member
enqueue now url path owner d =
    if is_empty_text (normalize_key path)
    then (d, false)
    else if member (normalize_key path) d.queued_paths
    then (record d { queue = redirect (normalize_key path) url owner d.queue }, true)
    else (
      record {
        queue =
            d.queue
            ++ record {
              remote_url = url;
              local_path = path;
              owner = owner;
              retry_count = 0;
              next_retry = (now + 1000) % u64_mod;
            }
              ∷ [];
        queued_paths = normalize_key path ∷ d.queued_paths;
      },
      true,
    )

-- The first task that is due, and the queue without it.
abbrev behind : Task → Option (Task × List Task) → Option (Task × List Task)
behind t none = none
behind t (some (due, rest)) = some (due, t ∷ rest)

unfoldable pub find_due : ℕ → List Task → Option (Task × List Task)
find_due now [] = none
find_due now (t ∷ ts) =
    let later = find_due now ts in if leb t.next_retry now then some (t, ts) else behind t later

abbrev without : Deferred → Option (Task × List Task) → Option (Task × Deferred)
without d none = none
without d (some (t, rest)) =
    some (t, record { queue = rest; queued_paths = erase (key_of t) d.queued_paths })

-- The part of `ProcessDeferredFileUpdates` under its first lock.
unfoldable pub take_due : ℕ → Deferred → Option (Task × Deferred)
take_due now d = without d (find_due now d.queue)

unfoldable pub retried : ℕ → Task → Task
unfolding compute_deferred_retry_delay_ms
retried later t =
    let count = (t.retry_count + 1) % 2 ^ 32 in
    record t {
      retry_count = count;
      next_retry = (later + compute_deferred_retry_delay_ms count) % u64_mod;
    }

-- `requeueTask`, at tick `later`.
unfoldable pub requeue : ℕ → Task → Deferred → Deferred
unfolding retried is_empty_text member
requeue later t d =
    if is_empty_text (key_of t) then d else if member (key_of t) d.queued_paths then d else record {
      queue = d.queue ++ retried later t ∷ [];
      queued_paths = key_of t ∷ d.queued_paths;
    }

-- One run without another thread in between. `fetched`: what `DownloadWithResume` returns, which
-- leaves this queue alone when it may not defer.
unfoldable pub process_taken : ℕ → Probe → Bool → Deferred → Option (Task × Deferred) → Deferred
unfolding requeue is_file_busy_for_write
process_taken later probe fetched d none = d
process_taken later probe fetched d (some (t, d')) =
    if is_file_busy_for_write probe || not fetched then requeue later t d' else d'

unfoldable pub process_deferred : ℕ → ℕ → Probe → Bool → Deferred → Deferred
unfolding take_due process_taken
process_deferred now later probe fetched d = process_taken later probe fetched d (take_due now d)

-- What the threads do to the queue, a locked section at a time.
pub data Op : Type 0 where
  enqueues : ℕ → Text → Text → ℕ → Op
  takes : ℕ → Op
  requeues : ℕ → Task → Op

unfoldable pub after_take : Deferred → Option (Task × Deferred) → Deferred
after_take d none = d
after_take d (some (_, d')) = d'

unfoldable pub apply_op : Op → Deferred → Deferred
unfolding enqueue take_due requeue after_take
apply_op (enqueues now url path owner) d = (enqueue now url path owner d).0
apply_op (takes now) d = after_take d (take_due now d)
apply_op (requeues later t) d = requeue later t d

unfoldable pub run_ops : List Op → Deferred → Deferred
run_ops [] d = d
run_ops (op ∷ ops) d = run_ops ops (apply_op op d)
