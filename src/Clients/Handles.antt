-- ===== src/Clients/Handles.antt =====
-- The process handles of the started games (ClientState.cpp).
use reborn_launcher.Base.{
  inr, inl, ℕ, ◌+◌, ◌≡◌, refl, ◌∙◌, ap, Bool, not, ◌&&◌, ◌||◌, List, [], ◌∷◌, ◌++◌, Option, none,
  some, arith, Bool-cases, ◌==◌, if◌then◌else◌,
}
use reborn_launcher.Clients.{
  GameInfo, Games, new_game, update_first, has_client, update_running, Mark, start, progress,
  finished, update_of, mark_client, launch_game_client, add_handle, is_running, clean_up,
  close_exited, cleanup_exited_game_infos, close_all_games, terminate_all_game_processes, GamesOp,
  launches, marks, cleans, terminates, apply_games_op, run_games_ops,
}

-- How often a handle stands in the list.
unfoldable pub occurrences : ℕ → List ℕ → ℕ
occurrences h [] = 0
occurrences h (x ∷ xs) = (if x == h then 1 else 0) + occurrences h xs

-- The handles that the entries hold.
unfoldable pub held : List (Option GameInfo) → List ℕ
held [] = []
held (none ∷ infos) = held infos
held (some g ∷ infos) = add_handle g.process (held infos)

-- Every handle that `CreateProcess` gave is held by an entry or closed, as often as it was given.
abbrev pub IsAccounted : Games → Type 0
IsAccounted games =
    (h : ℕ)
    → occurrences h games.got ≡ occurrences h (held games.infos) + occurrences h games.closed

add_handle-occurrences :
    (h : ℕ) (o : Option ℕ) (hs : List ℕ)
    → occurrences h (add_handle o hs) ≡ occurrences h (add_handle o []) + occurrences h hs
unfolding occurrences
add_handle-occurrences h none hs = omega arith
add_handle-occurrences h (some x) hs = omega arith

held-append :
    (h : ℕ) (infos : List (Option GameInfo)) (g : GameInfo)
    → occurrences h (held (infos ++ some g ∷ []))
      ≡ occurrences h (held infos) + occurrences h (add_handle g.process [])
unfolding held occurrences
held-append h [] g = omega arith
held-append h (none ∷ infos) g = held-append h infos g
held-append h (some x ∷ infos) g =
    let rest = held-append h infos g in
    let before = add_handle-occurrences h x.process (held (infos ++ some g ∷ [])) in
    let after = add_handle-occurrences h x.process (held infos) in omega arith

pub update_of-process : (m : Mark) (g : GameInfo) → (update_of m g).process ≡ g.process
update_of-process (start file) g = refl
update_of-process (progress done total) g = refl
update_of-process finished g = refl

update_first-held :
    (id : ℕ) (m : Mark) (infos : List (Option GameInfo))
    → held (update_first id (update_of m) infos) ≡ held infos
unfolding held update_first
update_first-held id m [] = refl
update_first-held id m (none ∷ infos) = update_first-held id m infos
update_first-held id m (some g ∷ infos) =
    let rest = update_first-held id m infos in
    let same = update_of-process m g in
    elim (Bool-cases (not (id == 0) && not (g.process_id == id))) [
      | inl other ↦ rw other (ap (λ hs. add_handle g.process hs) rest)
      | inr this ↦ elim (Bool-cases (id == 0)) [
        | inl all ↦ rw (this, all, same) (ap (λ hs. add_handle g.process hs) rest)
        | inr one ↦ rw (this, one, same) refl
      ]
    ]

update_running-held :
    (m : Mark) (infos : List (Option GameInfo))
    → held (update_running (update_of m) infos) ≡ held infos
unfolding held update_running
update_running-held m [] = refl
update_running-held m (none ∷ infos) = update_running-held m infos
update_running-held m (some g ∷ infos) =
    let rest = update_running-held m infos in
    let same = update_of-process m g in
    elim (Bool-cases (g.process_id == 0)) [
      | inl idle ↦ rw idle (ap (λ hs. add_handle g.process hs) rest)
      | inr runs ↦ rw (runs, same) (ap (λ hs. add_handle g.process hs) rest)
    ]

mark_client-held :
    (id : ℕ) (m : Mark) (infos : List (Option GameInfo))
    → held (mark_client id m infos) ≡ held infos
unfolding mark_client
mark_client-held id m infos = elim (Bool-cases (has_client id infos || id == 0)) [
  | inl there ↦ rw there (update_first-held id m infos)
  | inr gone ↦ rw gone (update_running-held m infos)
]

clean_up-held :
    (h : ℕ) (runs : ℕ → Bool) (infos : List (Option GameInfo)) (hs : List ℕ)
    → occurrences h (held infos) + occurrences h hs
      ≡ occurrences h (held (clean_up runs infos)) + occurrences h (close_exited runs infos hs)
unfolding held clean_up close_exited
clean_up-held h runs [] hs = refl
clean_up-held h runs (none ∷ infos) hs = clean_up-held h runs infos hs
clean_up-held h runs (some g ∷ infos) hs =
    let split = add_handle-occurrences h g.process (held infos) in
    elim (Bool-cases (is_running runs g)) [
      | inl on ↦
          let rest = clean_up-held h runs infos hs in
          let kept = add_handle-occurrences h g.process (held (clean_up runs infos)) in
          rw on (omega arith)
      | inr off ↦
          let rest = clean_up-held h runs infos (add_handle g.process hs) in
          let moved = add_handle-occurrences h g.process hs in rw off (omega arith)
    ]

close_all_games-held :
    (h : ℕ) (infos : List (Option GameInfo)) (hs : List ℕ)
    → occurrences h (held infos) + occurrences h hs ≡ occurrences h (close_all_games infos hs)
unfolding held close_all_games occurrences
close_all_games-held h [] hs = omega arith
close_all_games-held h (none ∷ infos) hs = close_all_games-held h infos hs
close_all_games-held h (some g ∷ infos) hs =
    let rest = close_all_games-held h infos (add_handle g.process hs) in
    let before = add_handle-occurrences h g.process (held infos) in
    let after = add_handle-occurrences h g.process hs in omega arith

apply-IsAccounted :
    (op : GamesOp) (games : Games) → IsAccounted games → IsAccounted (apply_games_op op games)
unfolding apply_games_op launch_game_client cleanup_exited_game_infos terminate_all_game_processes
    held occurrences
apply-IsAccounted (launches handle id) games ok h =
    let now = ok h in let more = held-append h games.infos (new_game handle id) in omega arith
apply-IsAccounted (marks id m) games ok h = rw (mark_client-held id m games.infos) (ok h)
apply-IsAccounted (cleans runs) games ok h = ok h ∙ clean_up-held h runs games.infos games.closed
apply-IsAccounted (terminates opens) games ok h =
    let now = ok h in let all = close_all_games-held h games.infos games.closed in omega arith

-- Whatever the launcher's threads do to the list of games, in whatever order: every process handle
-- that a launch gave is held by an entry of the list or was closed, in all exactly as often as it
-- was given. So none leaks, none is closed twice, and after the games are terminated each is closed.
pub run_games_ops-IsAccounted :
    (ops : List GamesOp) (games : Games)
    → IsAccounted games
    → let after = run_games_ops ops games in
      IsAccounted after
      × ((opens : ℕ → Bool) (h : ℕ)
          → occurrences h (terminate_all_game_processes opens after).closed
            ≡ occurrences h after.got)
unfolding run_games_ops terminate_all_game_processes
run_games_ops-IsAccounted [] games ok = (
  ok,
  λ opens h.
      let now = ok h in let all = close_all_games-held h games.infos games.closed in omega arith,
)
run_games_ops-IsAccounted (op ∷ ops) games ok =
    run_games_ops-IsAccounted ops (apply_games_op op games) (apply-IsAccounted op games ok)
