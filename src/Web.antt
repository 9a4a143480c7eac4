-- ===== src/Web.antt =====
-- The local web service (RebornLauncher/WebService.cpp): what one download request does. httplib, the
-- download itself and std::to_string are parameters; `Fetch` is what `DownloadWithResume` does.
pub mod Outcomes
pub mod Queue
pub mod Steps
pub mod Drained
pub mod Returns
use reborn_launcher.Base.{
  ◌/◌, ℕ, ◌%◌, ◌^◌, Bool, true, false, not, ◌&&◌, ◌||◌, List, [], ◌∷◌, ◌++◌, Option, none, some,
  map, ◌==◌, if◌then◌else◌, text_eq, Text,
}
use reborn_launcher.Deferred.{to_lower_ascii, back_slash, is_empty_text, member}
use reborn_launcher.Paths.{slash}
use reborn_launcher.Sync.{VersionConfig}
use reborn_launcher.Urls.{join_url_path}
use reborn_launcher.Clients.{GameInfo, Mark, start, progress, finished, mark_client}

-- `NormalizeAsyncQueueKey`.
unfoldable pub async_queue_key : Text → Text
async_queue_key page = to_lower_ascii (map slash page)

-- "1", "true", "yes" and "on".
abbrev truthy_words : List Text
truthy_words =
    (49 ∷ []) ∷ (116 ∷ 114 ∷ 117 ∷ 101 ∷ []) ∷ (121 ∷ 101 ∷ 115 ∷ []) ∷ (111 ∷ 110 ∷ []) ∷ []

-- `IsTruthyParam`.
unfoldable pub is_truthy_param : Text → Bool
unfolding member
is_truthy_param value = member (to_lower_ascii value) truthy_words

-- "async" and "queue".
abbrev async_modes : List Text
async_modes = (97 ∷ 115 ∷ 121 ∷ 110 ∷ 99 ∷ []) ∷ (113 ∷ 117 ∷ 101 ∷ 117 ∷ 101 ∷ []) ∷ []

-- The parameters of a request to /download, each where it is there; `pid` as std::stoul reads it.
pub record Params : Type 0 where
  pub page : Option Text
  pub pid : Option ℕ
  pub mode : Option Text
  pub async : Option Text

async_by_mode : Option Text → Bool
async_by_mode none = false
async_by_mode (some mode) = member (to_lower_ascii mode) async_modes

async_by_flag : Option Text → Bool
async_by_flag none = false
async_by_flag (some value) = is_truthy_param value

-- `IsAsyncDownloadRequest`.
unfoldable pub is_async_download_request : Params → Bool
unfolding async_by_mode async_by_flag
is_async_download_request q = if async_by_mode q.mode then true else async_by_flag q.async

unfoldable pub find_entry : Text → List (Text × VersionConfig) → Option (Text × VersionConfig)
find_entry page [] = none
find_entry page ((p, cfg) ∷ files) =
    let rest = find_entry page files in if text_eq p page then some (p, cfg) else rest

unfoldable pub or_entry :
    Option (Text × VersionConfig) → Option (Text × VersionConfig) → Option (Text × VersionConfig)
or_entry none other = other
or_entry (some entry) other = some entry

-- `ResolveFileConfigByPage`.
unfoldable pub resolve_file_config_by_page :
    List (Text × VersionConfig) → Text → Option (Text × VersionConfig)
unfolding find_entry or_entry
resolve_file_config_by_page files page =
    or_entry (find_entry page files)
      (or_entry (find_entry (map back_slash page) files) (find_entry (map slash page) files))

-- `DownloadRequestOutcome`, without the body.
pub record Outcome : Type 0 where
  pub status : ℕ
  pub success : Bool
  pub resolved_page : Text

-- Whether `DownloadWithResume` is left by an exception, else what it returns and whether it deferred the
-- file; and how it marks the clients.
pub record Fetch : Type 0 where
  pub threw : Bool
  pub ok : Bool
  pub deferred : Bool
  pub marks : List Mark

unfoldable pub mark_all : ℕ → List Mark → List (Option GameInfo) → List (Option GameInfo)
mark_all pid [] infos = infos
mark_all pid (m ∷ marks) infos = mark_all pid marks (mark_client pid m infos)

unfoldable pub outcome_of : Text → Fetch → Outcome
outcome_of page fetch =
    if fetch.ok
    then record {
      status = if fetch.deferred then 202 else 200;
      success = true;
      resolved_page = page;
    }
    else record { status = 502; success = false; resolved_page = [] }

-- A size as the `int` that it is stored in, at least 0.
unfoldable pub shown_size : ℕ → ℕ
shown_size size = let low = size % 2 ^ 32 in if low / 2 ^ 31 == 0 then low else 0

unfoldable pub serve_entry :
    (ℕ → Text)
    → (Text → Text → Fetch)
    → Text
    → ℕ
    → List (Option GameInfo)
    → Option (Text × VersionConfig)
    → Option Outcome × List (Option GameInfo)
unfolding outcome_of mark_all shown_size
serve_entry to_string fetch base pid infos none = (
  some (record { status = 404; success = false; resolved_page = [] }),
  mark_client pid finished infos,
)
serve_entry to_string fetch base pid infos (some (page, cfg)) =
    let url = join_url_path base (to_string cfg.time ++ 47 ∷ page) in
    let done = fetch url page in
    let shown = mark_client pid (progress 0 (shown_size cfg.size)) infos in
    let marked = mark_all pid done.marks shown in
    if done.threw
    then (none, marked)
    else (some (outcome_of page done), mark_client pid finished marked)

-- `executeClientDownload` (`none`: it is left by an exception), where `refreshed` are the files after `RefreshRemoteVersionManifest`.
unfoldable pub execute_client_download :
    (ℕ → Text)
    → (Text → Text → Fetch)
    → Text
    → List (Text × VersionConfig)
    → List (Text × VersionConfig)
    → Text
    → ℕ
    → List (Option GameInfo)
    → Option Outcome × List (Option GameInfo)
unfolding serve_entry or_entry
execute_client_download to_string fetch base files refreshed page pid infos =
    serve_entry to_string fetch base pid (mark_client pid (start page) infos) (
      or_entry (resolve_file_config_by_page files page)
        (resolve_file_config_by_page refreshed page))

-- What the /RunClient handler answers, by what its steps return in turn.
unfoldable pub run_client_status : Bool → Bool → Bool → ℕ
run_client_status refreshed updated launched =
    if not refreshed then 502 else if not updated then 502 else if not launched then 500 else 200
