-- ===== src/Clients.antt =====
-- The games that the launcher has started (RebornLauncher/ClientState.cpp): the list `gameInfos`
-- under its mutex, the process handles, and the state of the downloads that they wait for.
pub mod Handles
pub mod Downloads
use reborn_launcher.Base.{
  ℕ, Bool, true, false, not, ◌&&◌, ◌||◌, List, [], ◌∷◌, ◌++◌, Option, none, some, ◌==◌,
  if◌then◌else◌, Text,
}

pub record GameInfo : Type 0 where
  pub process : Option ℕ
  pub window : ℕ
  pub process_id : ℕ
  pub downloading : Bool
  pub download_file : Text
  pub done_bytes : ℕ
  pub total_bytes : ℕ

-- `gameInfos` (`none`: a null pointer), and what the operations did to the system: the handles that
-- they got and closed, and the processes that they ended.
pub record Games : Type 0 where
  pub infos : List (Option GameInfo)
  pub got : List ℕ
  pub closed : List ℕ
  pub ended : List ℕ

abbrev pub Update : Type 0
Update = GameInfo → GameInfo

-- The first loop of `UpdateClientDownloadState`: all entries when `id` is 0, else the first with it.
unfoldable pub update_first : ℕ → Update → List (Option GameInfo) → List (Option GameInfo)
update_first id f [] = []
update_first id f (none ∷ infos) = none ∷ update_first id f infos
update_first id f (some g ∷ infos) =
    let rest = update_first id f infos in
    if not (id == 0) && not (g.process_id == id)
    then some g ∷ rest
    else some (f g) ∷ (if id == 0 then rest else infos)

-- Whether that loop updates an entry.
unfoldable pub has_client : ℕ → List (Option GameInfo) → Bool
has_client id [] = false
has_client id (none ∷ infos) = has_client id infos
has_client id (some g ∷ infos) = id == 0 || g.process_id == id || has_client id infos

-- The second loop: all entries of a process.
unfoldable pub update_running : Update → List (Option GameInfo) → List (Option GameInfo)
update_running f [] = []
update_running f (none ∷ infos) = none ∷ update_running f infos
update_running f (some g ∷ infos) =
    (if g.process_id == 0 then some g else some (f g)) ∷ update_running f infos

-- `UpdateClientDownloadState`.
unfoldable pub update_client_download_state :
    ℕ → Update → List (Option GameInfo) → List (Option GameInfo)
unfolding update_first has_client update_running
update_client_download_state id f infos =
    if has_client id infos || id == 0 then update_first id f infos else update_running f infos

abbrev pub start_download : Text → Update
start_download file g = record g {
  downloading = true;
  download_file = file;
  done_bytes = 0;
  total_bytes = 0;
}

abbrev pub set_progress : ℕ → ℕ → Update
set_progress done total g = record g { downloading = true; done_bytes = done; total_bytes = total }

abbrev pub finish_download : Update
finish_download g = record g {
  downloading = false;
  done_bytes = 0;
  total_bytes = 0;
  download_file = [];
}

-- `MarkClientDownloadStart`, `MarkClientDownloadProgress` and `MarkClientDownloadFinished`.
pub data Mark : Type 0 where
  start : Text → Mark
  progress : ℕ → ℕ → Mark
  finished : Mark

abbrev pub update_of : Mark → Update
update_of (start file) = start_download file
update_of (progress done total) = set_progress done total
update_of finished = finish_download

unfoldable pub mark_client : ℕ → Mark → List (Option GameInfo) → List (Option GameInfo)
unfolding update_client_download_state
mark_client id m infos = update_client_download_state id (update_of m) infos

-- What `LaunchGameClient` adds when `CreateProcess` gave this handle and id.
abbrev pub new_game : ℕ → ℕ → GameInfo
new_game handle id = record {
  process = some handle;
  window = 0;
  process_id = id;
  downloading = false;
  download_file = [];
  done_bytes = 0;
  total_bytes = 0;
}

unfoldable pub launch_game_client : ℕ → ℕ → Games → Games
launch_game_client handle id games = record games {
  infos = games.infos ++ some (new_game handle id) ∷ [];
  got = handle ∷ games.got;
}

-- The handle of an entry, in front of others.
abbrev pub add_handle : Option ℕ → List ℕ → List ℕ
add_handle none hs = hs
add_handle (some h) hs = h ∷ hs

is_running : (ℕ → Bool) → GameInfo → Bool
is_running runs g = not (g.process_id == 0) && runs g.process_id

-- The loop of `CleanupExitedGameInfos`; `runs` is `IsProcessRunning`.
unfoldable pub clean_up : (ℕ → Bool) → List (Option GameInfo) → List (Option GameInfo)
unfolding is_running
clean_up runs [] = []
clean_up runs (none ∷ infos) = clean_up runs infos
clean_up runs (some g ∷ infos) =
    let rest = clean_up runs infos in if is_running runs g then some g ∷ rest else rest

unfoldable pub close_exited : (ℕ → Bool) → List (Option GameInfo) → List ℕ → List ℕ
unfolding is_running
close_exited runs [] hs = hs
close_exited runs (none ∷ infos) hs = close_exited runs infos hs
close_exited runs (some g ∷ infos) hs =
    close_exited runs infos (if is_running runs g then hs else add_handle g.process hs)

unfoldable pub cleanup_exited_game_infos : (ℕ → Bool) → Games → Games
unfolding clean_up close_exited
cleanup_exited_game_infos runs games = record games {
  infos = clean_up runs games.infos;
  closed = close_exited runs games.infos games.closed;
}

unfoldable pub has_running_game_process : (ℕ → Bool) → List (Option GameInfo) → Bool
unfolding is_running
has_running_game_process runs [] = false
has_running_game_process runs (none ∷ infos) = has_running_game_process runs infos
has_running_game_process runs (some g ∷ infos) =
    is_running runs g || has_running_game_process runs infos

-- The loop of `TerminateAllGameProcesses`. A process without a handle is opened by its id, where
-- `opens` says that it can be, and that handle closed at once.
unfoldable pub close_all_games : List (Option GameInfo) → List ℕ → List ℕ
close_all_games [] hs = hs
close_all_games (none ∷ infos) hs = close_all_games infos hs
close_all_games (some g ∷ infos) hs = close_all_games infos (add_handle g.process hs)

end_process : (ℕ → Bool) → GameInfo → Option ℕ → List ℕ → List ℕ
end_process opens g none ids =
    if not (g.process_id == 0) && opens g.process_id then g.process_id ∷ ids else ids
end_process opens g (some h) ids = g.process_id ∷ ids

unfoldable pub end_all_games : (ℕ → Bool) → List (Option GameInfo) → List ℕ → List ℕ
unfolding end_process
end_all_games opens [] ids = ids
end_all_games opens (none ∷ infos) ids = end_all_games opens infos ids
end_all_games opens (some g ∷ infos) ids =
    end_all_games opens infos (end_process opens g g.process ids)

unfoldable pub terminate_all_game_processes : (ℕ → Bool) → Games → Games
unfolding close_all_games end_all_games
terminate_all_game_processes opens games = record games {
  infos = [];
  closed = close_all_games games.infos games.closed;
  ended = end_all_games opens games.infos games.ended;
}

-- What the launcher's threads do to the list, a locked section at a time.
pub data GamesOp : Type 0 where
  launches : ℕ → ℕ → GamesOp
  marks : ℕ → Mark → GamesOp
  cleans : (ℕ → Bool) → GamesOp
  terminates : (ℕ → Bool) → GamesOp

unfoldable pub apply_games_op : GamesOp → Games → Games
unfolding launch_game_client mark_client cleanup_exited_game_infos terminate_all_game_processes
apply_games_op (launches handle id) games = launch_game_client handle id games
apply_games_op (marks id m) games = record games { infos = mark_client id m games.infos }
apply_games_op (cleans runs) games = cleanup_exited_game_infos runs games
apply_games_op (terminates opens) games = terminate_all_game_processes opens games

unfoldable pub run_games_ops : List GamesOp → Games → Games
unfolding apply_games_op
run_games_ops [] games = games
run_games_ops (op ∷ ops) games = run_games_ops ops (apply_games_op op games)
