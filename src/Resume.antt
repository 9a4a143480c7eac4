-- ===== src/Resume.antt =====
-- The download of one file of the manifest: `DownloadWithResume` of RebornLauncher/DownloadResume.cpp,
-- with `ResolveVersionConfigByPath`. The two transports of ResumeDownload.cpp, the file system and the
-- MD5 library answer by the fields of `ResumeAnswers`. `currentDownloadSize` is the 32 bits of an int.
pub mod Verified
use reborn_launcher.Base.{
  ℕ, ◌^◌, Bool, true, false, not, ◌&&◌, ◌||◌, List, [], ◌∷◌, Option, none, some, map, ltb, ◌==◌,
  if◌then◌else◌, text_eq, Text,
}
use reborn_launcher.Files.{FileData, empty_file}
use reborn_launcher.Deferred.{
  Deferred, Probe, enqueue, is_file_busy_for_write, is_empty_text, to_lower_ascii, back_slash,
}
use reborn_launcher.Paths.{slash}
use reborn_launcher.Sync.{VersionConfig}
use reborn_launcher.Clients.{GameInfo, start, progress, finished, mark_client}
use reborn_launcher.Urls.{normalize_relative_url_path}

unfoldable pub find_file : Text → List (Text × VersionConfig) → Option VersionConfig
find_file path [] = none
find_file path ((p, cfg) ∷ files) =
    let rest = find_file path files in if text_eq p path then some cfg else rest

abbrev pub or_else : Option VersionConfig → Option VersionConfig → Option VersionConfig
or_else none other = other
or_else (some cfg) other = some cfg

-- `ResolveVersionConfigByPath`: the path as it is, with backslashes, or with slashes.
unfoldable pub resolve_version_config_by_path :
    List (Text × VersionConfig) → Text → Option VersionConfig
unfolding find_file
resolve_version_config_by_path files path =
    or_else (find_file path files)
      (or_else (find_file (map back_slash path) files) (find_file (map slash path) files))

-- What one transport does: its verdict, the file and the size that it leaves, the progress that it
-- reports, and whether the size of the file can be read afterwards.
pub record Sent : Type 0 where
  pub ok : Bool
  pub file : Option FileData
  pub size : ℕ
  pub reports : List (ℕ × ℕ)
  pub readable : Bool

-- How `resetLocalFile` fares: whether the file is still there after its removal, whether it opens,
-- and whether its size reads as 0 then.
pub record Reset : Type 0 where
  pub still_there : Bool
  pub opens : Bool
  pub empty_after : Bool

-- `p2p` is `none` where `TryP2P` throws: nothing in `DownloadWithResume` catches that.
pub record ResumeAnswers : Type 0 where
  pub now : ℕ
  pub busy_at_start : Probe
  pub p2p : Option Sent
  pub reset_after_p2p : Reset
  pub busy_after_p2p : Probe
  pub has_client : Bool
  pub first : Sent
  pub reset_after_first : Reset
  pub busy_after_first : Probe
  pub second : Sent
  pub busy_at_end : Probe

-- The arguments, with the manifest that is loaded.
pub record Request : Type 0 where
  pub url : Text
  pub path : Text
  pub owner : ℕ
  pub allow_deferred : Bool
  pub allow_p2p : Bool
  pub files : List (Text × VersionConfig)

pub record World : Type 0 where
  pub file : Option FileData
  pub current_size : ℕ
  pub deferred : Deferred
  pub infos : List (Option GameInfo)

-- Whether the function is left by an exception, else what it returns and leaves in
-- `*queuedForDeferred`; and the world.
pub record Resumed : Type 0 where
  pub threw : Bool
  pub ok : Bool
  pub queued : Bool
  pub world : World

unfoldable pub report_all : ℕ → List (ℕ × ℕ) → List (Option GameInfo) → List (Option GameInfo)
report_all owner [] infos = infos
report_all owner ((done, total) ∷ reports) infos =
    report_all owner reports (mark_client owner (progress done total) infos)

unfoldable pub send : Request → Sent → World → World
unfolding report_all
send q s w = record w {
  file = s.file;
  current_size = s.size;
  infos = report_all q.owner s.reports w.infos;
}

is_positive_int : ℕ → ℕ → Bool
is_positive_int bits n = ltb 0 n && ltb n (2 ^ bits)

size_fits : Option VersionConfig → ℕ → ℕ → Bool
unfolding is_positive_int
size_fits none current n = not (is_positive_int 31 current) || n == current
size_fits (some cfg) current n =
    if is_positive_int 63 cfg.size
    then n == cfg.size
    else not (is_positive_int 31 current) || n == current

md5_fits : Option VersionConfig → Text → Bool
md5_fits none actual = true
md5_fits (some cfg) actual =
    is_empty_text cfg.md5
    || (not (is_empty_text (to_lower_ascii actual))
        && text_eq (to_lower_ascii actual) (to_lower_ascii cfg.md5))

-- `verifyDownloadedFile`; `md5` is the library's hash of a file.
unfoldable pub verify : (FileData → Text) → Request → Bool → World → Bool
unfolding size_fits md5_fits
verify md5 q readable w = elim w.file [
  | none ↦ false
  | some f ↦
      let cfg = resolve_version_config_by_path q.files q.path in
      readable && size_fits cfg w.current_size f.size && md5_fits cfg (md5 f)
]

unfoldable pub reset_local_file : Reset → World → World × Bool
reset_local_file r w =
    if not r.still_there
    then (record w { file = none }, true)
    else if not r.opens
    then (w, false)
    else (record w { file = some empty_file }, r.empty_after)

-- `MarkClientDownloadFinished(ownerProcessId); return ok;`.
unfoldable pub finish : Request → Bool → World → Resumed
finish q ok w = record {
  threw = false;
  ok = ok;
  queued = false;
  world = record w { infos = mark_client q.owner finished w.infos };
}

-- `allowDeferredOnBusy && IsFileBusyForWrite(...) && finishWithDeferred()`, and what follows if not.
unfoldable pub defer_or : ResumeAnswers → Request → Probe → World → Resumed → Resumed
defer_or a q probe w other =
    let (deferred, queued) =
      enqueue a.now (normalize_relative_url_path q.url) q.path q.owner w.deferred in
    if q.allow_deferred && is_file_busy_for_write probe && queued
    then record {
      threw = false;
      ok = true;
      queued = true;
      world = record w { deferred = deferred; infos = mark_client q.owner finished w.infos };
    }
    else other

-- Behind the loop of the two HTTP attempts.
unfoldable pub after_http : ResumeAnswers → Request → Bool → World → Resumed
unfolding finish defer_or
after_http a q ok w =
    if ok then finish q true w else defer_or a q a.busy_at_end w (finish q false w)

unfoldable pub second_attempt : (FileData → Text) → ResumeAnswers → Request → World → Resumed
unfolding after_http
second_attempt md5 a q w =
    let w' = send q a.second w in
    after_http a q (a.second.ok && verify md5 q a.second.readable w') w'

unfoldable pub first_attempt : (FileData → Text) → ResumeAnswers → Request → World → Resumed
unfolding second_attempt
first_attempt md5 a q w =
    let w' = send q a.first w in
    let (fresh, reset) = reset_local_file a.reset_after_first w' in
    if not a.first.ok
    then second_attempt md5 a q w'
    else if verify md5 q a.first.readable w'
    then after_http a q true w'
    else if not reset
    then defer_or a q a.busy_after_first fresh (after_http a q false fresh)
    else second_attempt md5 a q fresh

unfoldable pub over_http : (FileData → Text) → ResumeAnswers → Request → World → Resumed
unfolding first_attempt
over_http md5 a q w = if not a.has_client then finish q false w else first_attempt md5 a q w

-- After `TryP2P`.
unfoldable pub after_p2p :
    (FileData → Text) → ResumeAnswers → Request → World → Option Sent → Resumed
unfolding over_http
after_p2p md5 a q w none = record { threw = true; ok = false; queued = false; world = w }
after_p2p md5 a q w (some sent) =
    let w' = send q sent w in
    let (fresh, reset) = reset_local_file a.reset_after_p2p w' in
    if not sent.ok
    then over_http md5 a q w'
    else if verify md5 q sent.readable w'
    then finish q true w'
    else if not reset
    then defer_or a q a.busy_after_p2p fresh (finish q false fresh)
    else over_http md5 a q fresh

unfoldable pub over_p2p : (FileData → Text) → ResumeAnswers → Request → World → Resumed
unfolding after_p2p
over_p2p md5 a q w = if not q.allow_p2p then over_http md5 a q w else after_p2p md5 a q w a.p2p

-- `DownloadWithResume`.
unfoldable pub download_with_resume : (FileData → Text) → ResumeAnswers → Request → World → Resumed
unfolding over_p2p
download_with_resume md5 a q w =
    let begun = record w {
      infos = mark_client q.owner (progress 0 0) (mark_client q.owner (start q.path) w.infos);
    } in
    defer_or a q a.busy_at_start begun (over_p2p md5 a q begun)
