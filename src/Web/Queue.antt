-- ===== src/Web/Queue.antt =====
-- The queue of asynchronous downloads of RebornLauncher/WebService.cpp: the handlers of /download put
-- pages in, one worker takes them out, and the end of the service stops it. A step is a locked section
-- or the worker's download; the set of queued pages is a list that is only asked for membership.
use reborn_launcher.Base.{
  ℕ, Bool, true, false, List, [], ◌∷◌, ◌++◌, Option, none, some, if◌then◌else◌, Text,
}
use reborn_launcher.Deferred.{member, erase}
use reborn_launcher.Web.{async_queue_key}

-- `AsyncDownloadTask`.
pub record AsyncTask : Type 0 where
  pub page : Text
  pub pid : ℕ

-- The queue, the set, the task that the worker has taken out, and whether it was told to stop and has
-- returned.
pub record Service : Type 0 where
  pub queue : List AsyncTask
  pub queued_pages : List Text
  pub held : Option AsyncTask
  pub stop : Bool
  pub returned : Bool

abbrev pub initial : Service
initial = record { queue = []; queued_pages = []; held = none; stop = false; returned = false }

-- The asynchronous branch of the /download handler, and whether it queued the page.
unfoldable pub enqueue_page : Text → ℕ → Service → Service × Bool
enqueue_page page pid s = if member (async_queue_key page) s.queued_pages then (s, false) else (
  record s {
    queue = s.queue ++ record { page = page; pid = pid } ∷ [];
    queued_pages = async_queue_key page ∷ s.queued_pages;
  },
  true,
)

-- A step of the worker without a task: it takes one, or returns, or waits.
unfoldable pub take_task : Service → List AsyncTask → Service
take_task s [] = if s.stop then record s { returned = true } else s
take_task s (t ∷ queue) = record s { queue = queue; held = some t }

unfoldable pub worker_from : Service → Option AsyncTask → Service
unfolding take_task
worker_from s none = take_task s s.queue
worker_from s (some t) = record s {
  held = none;
  queued_pages = erase (async_queue_key t.page) s.queued_pages;
}

-- A step of the worker; a held task ends with the download and the key leaves the set.
unfoldable pub async_worker_step : Service → Service
unfolding worker_from
async_worker_step s = if s.returned then s else worker_from s s.held

-- The end of `WebServiceThread`.
unfoldable pub stop_worker : Service → Service
stop_worker s = record s { stop = true }
