-- ===== src/Tests/Services.antt =====
-- A page that is queued once and downloaded by the worker, and a request for a page.
use reborn_launcher.Paths.{slash}
use reborn_launcher.Deferred.{lower_char, to_lower_ascii, member}
use reborn_launcher.Base.{
  text_eq, ◌≡◌, refl, true, false, List, [], ◌∷◌, ◌++◌, Option, some, Text, arith, ℕ,
}
use reborn_launcher.Sync.{VersionConfig}
use reborn_launcher.Clients.{GameInfo}
use reborn_launcher.Web.{Fetch, async_queue_key}
use reborn_launcher.Web.Queue.{AsyncTask, Service, initial, enqueue_page}
use reborn_launcher.Web.Steps.{Reaches, starts, later, queues, refuses, IsSound}
use reborn_launcher.Web.Drained.{Reaches-IsSound}
use reborn_launcher.Web.Returns.{async_worker_steps, async_worker_steps-returned}

-- "A/b" and "a\b".
abbrev page : Text
page = 65 ∷ 47 ∷ 98 ∷ []

abbrev same_page : Text
same_page = 97 ∷ 92 ∷ 98 ∷ []

abbrev files : List (Text × VersionConfig)
files = (65 ∷ 92 ∷ 98 ∷ [], record { page = 65 ∷ 92 ∷ 98 ∷ []; md5 = []; time = 1; size = 5 }) ∷ []

abbrev infos : List (Option GameInfo)
infos =
    some (record {
      process = some 4;
      window = 0;
      process_id = 9;
      downloading = false;
      download_file = [];
      done_bytes = 0;
      total_bytes = 0;
    })
    ∷ []

abbrev fetch : Text → Text → Fetch
fetch url path = record { threw = false; ok = true; deferred = false; marks = [] }

abbrev no_digits : ℕ → Text
no_digits n = []

abbrev queued : Service
queued = (enqueue_page page 9 initial).0

abbrev asked_again : Service
asked_again = (enqueue_page same_page 8 queued).0

abbrev task : AsyncTask
task = record { page = page; pid = 9 }

first-queues : (enqueue_page page 9 initial).1 ≡ true
unfolding enqueue_page member
first-queues = refl

second-refused : (enqueue_page same_page 8 queued).1 ≡ false
unfolding enqueue_page member text_eq async_queue_key to_lower_ascii lower_char slash
second-refused = refl

still-running : queued.stop ≡ false
unfolding enqueue_page member
still-running = refl

asked_twice : Reaches asked_again (([] ++ task ∷ []) ++ []) (([] ++ []) ++ [])
asked_twice =
    later (later starts (queues page 9 refl first-queues))
      (refuses same_page 8 still-running second-refused)

Reaches-IsSound_example : IsSound asked_again (([] ++ task ∷ []) ++ []) (([] ++ []) ++ [])
Reaches-IsSound_example = Reaches-IsSound asked_twice

abbrev stopped : Service
stopped = record {
  queue = task ∷ [];
  queued_pages = async_queue_key page ∷ [];
  held = some task;
  stop = true;
  returned = false;
}

async_worker_steps-returned_example : (async_worker_steps 4 stopped).returned ≡ true
async_worker_steps-returned_example = async_worker_steps-returned 4 stopped refl (omega arith)
