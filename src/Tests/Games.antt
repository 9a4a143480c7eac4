-- ===== src/Tests/Games.antt =====
-- Runs of the list of started games (ClientState.cpp).
use reborn_launcher.Base.{ℕ, ◌≡◌, Bool, false, List, [], ◌∷◌, Option, some, arith}
use reborn_launcher.Clients.{
  GameInfo, Games, new_game, start, progress, launches, marks, cleans, GamesOp, run_games_ops,
  terminate_all_game_processes,
}
use reborn_launcher.Clients.Handles.{occurrences, held, IsAccounted, run_games_ops-IsAccounted}
use reborn_launcher.Clients.Downloads.{run_marks, IsSettled, run_marks-IsSettled}

abbrev no_games : Games
no_games = record { infos = []; got = []; closed = []; ended = [] }

abbrev none_runs : ℕ → Bool
none_runs _ = false

abbrev moves : List GamesOp
moves =
    launches 40 7
    ∷ launches 44 8
    ∷ marks 7 (start (97 ∷ []))
    ∷ cleans none_runs
    ∷ launches 48 9
    ∷ []

no_games-IsAccounted : IsAccounted no_games
unfolding occurrences held
no_games-IsAccounted h = omega arith

run_games_ops-IsAccounted_example :
    let after = run_games_ops moves no_games in
    IsAccounted after
    × ((opens : ℕ → Bool) (h : ℕ)
        → occurrences h (terminate_all_game_processes opens after).closed ≡ occurrences h after.got)
run_games_ops-IsAccounted_example = run_games_ops-IsAccounted moves no_games no_games-IsAccounted

abbrev two_games : List (Option GameInfo)
two_games = some (new_game 40 7) ∷ some (new_game 44 8) ∷ []

run_marks-IsSettled_example :
    IsSettled 8 two_games (run_marks 8 (start (97 ∷ []) ∷ progress 3 9 ∷ []) two_games)
run_marks-IsSettled_example = run_marks-IsSettled 8 (start (97 ∷ []) ∷ progress 3 9 ∷ []) two_games
