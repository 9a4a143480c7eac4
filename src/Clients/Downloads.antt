-- ===== src/Clients/Downloads.antt =====
-- The download state that a started game waits on (ClientState.cpp).
use reborn_launcher.Base.{
  sym, ◌++◌, ◌≢◌, false, subst, ℕ, ◌≡◌, refl, ◌∙◌, ap, true, not, ◌&&◌, ◌||◌, List, [], ◌∷◌, Option,
  none, some, arith, Bool-cases, ◌==◌, inl, inr, if◌then◌else◌,
}
use reborn_launcher.Clients.Handles.{update_of-process}
use reborn_launcher.Clients.{
  GameInfo, update_first, has_client, update_running, Mark, start, progress, finished, update_of,
  finish_download, mark_client,
}

-- A download of process `id`: marks, and the one that it is finished.
abbrev pub run_marks : ℕ → List Mark → List (Option GameInfo) → List (Option GameInfo)
run_marks id [] infos = mark_client id finished infos
run_marks id (m ∷ ms) infos = run_marks id ms (mark_client id m infos)

update_of-process_id : (m : Mark) (g : GameInfo) → (update_of m g).process_id ≡ g.process_id
update_of-process_id (start file) g = refl
update_of-process_id (progress done total) g = refl
update_of-process_id finished g = refl

update_of-window : (m : Mark) (g : GameInfo) → (update_of m g).window ≡ g.window
update_of-window (start file) g = refl
update_of-window (progress done total) g = refl
update_of-window finished g = refl

update_first-absorbs :
    (id : ℕ) (m : Mark) (infos : List (Option GameInfo))
    → (update_first id finish_download (update_first id (update_of m) infos)
        ≡ update_first id finish_download infos)
      × (has_client id (update_first id (update_of m) infos) ≡ has_client id infos)
unfolding update_first has_client
update_first-absorbs id m [] = (refl, refl)
update_first-absorbs id m (none ∷ infos) =
    let (rest, there) = update_first-absorbs id m infos in (ap (λ gs. none ∷ gs) rest, there)
update_first-absorbs id m (some g ∷ infos) =
    let (rest, there) = update_first-absorbs id m infos in
    let same = update_of-process_id m g in
    let handle = update_of-process m g in
    let window = update_of-window m g in
    elim (Bool-cases (not (id == 0) && not (g.process_id == id))) [
      | inl other ↦
          rw (other, other)
            (ap (λ gs. some g ∷ gs) rest, ap (λ b. id == 0 || g.process_id == id || b) there)
      | inr this ↦ elim (Bool-cases (id == 0)) [
        | inl all ↦ simp (all, same, handle, window, rest, there) (refl, refl)
        | inr one ↦
            let mine : (g.process_id == id) ≡ true = ground (arith, this, one) in
            simp (one, mine, same, handle, window) (refl, refl)
      ]
    ]

update_running-absorbs :
    (id : ℕ) (m : Mark) (infos : List (Option GameInfo))
    → (update_running finish_download (update_running (update_of m) infos)
        ≡ update_running finish_download infos)
      × (has_client id (update_running (update_of m) infos) ≡ has_client id infos)
unfolding update_running has_client
update_running-absorbs id m [] = (refl, refl)
update_running-absorbs id m (none ∷ infos) =
    let (rest, there) = update_running-absorbs id m infos in (ap (λ gs. none ∷ gs) rest, there)
update_running-absorbs id m (some g ∷ infos) =
    let (rest, there) = update_running-absorbs id m infos in
    let same = update_of-process_id m g in
    let handle = update_of-process m g in
    let window = update_of-window m g in
    elim (Bool-cases (g.process_id == 0)) [
      | inl idle ↦ simp (idle, rest, there) (refl, refl)
      | inr busy ↦ simp (busy, same, handle, window, rest, there) (refl, refl)
    ]

pub mark_client-absorbs :
    (id : ℕ) (m : Mark) (infos : List (Option GameInfo))
    → mark_client id finished (mark_client id m infos) ≡ mark_client id finished infos
unfolding mark_client
mark_client-absorbs id m infos = elim (Bool-cases (has_client id infos || id == 0)) [
  | inl there ↦
      let (same, still) = update_first-absorbs id m infos in simp (there, still, same) refl
  | inr gone ↦
      let (same, still) = update_running-absorbs id m infos in simp (gone, still, same) refl
]

pub run_marks-finished :
    (id : ℕ) (ms : List Mark) (infos : List (Option GameInfo))
    → run_marks id ms infos ≡ mark_client id finished infos
run_marks-finished id [] infos = refl
run_marks-finished id (m ∷ ms) infos =
    run_marks-finished id ms (mark_client id m infos) ∙ mark_client-absorbs id m infos

-- The entry with no download shown, and nothing else changed.
abbrev pub without_download : GameInfo → GameInfo
without_download g = record {
  process = g.process;
  window = g.window;
  process_id = g.process_id;
  downloading = false;
  download_file = [];
  done_bytes = 0;
  total_bytes = 0;
}

-- A change of every entry.
unfoldable pub each : (GameInfo → GameInfo) → List (Option GameInfo) → List (Option GameInfo)
each f [] = []
each f (none ∷ infos) = none ∷ each f infos
each f (some g ∷ infos) = some (f g) ∷ each f infos

-- No entry is of process `id`.
abbrev pub Lacks : ℕ → List (Option GameInfo) → Type 0
Lacks id [] = Unit
Lacks id (none ∷ infos) = Lacks id infos
Lacks id (some g ∷ infos) = (g.process_id ≢ id) × Lacks id infos

-- The list after a download of process `id`, by what the list was before.
pub record IsSettled (id : ℕ) (before after : List (Option GameInfo)) : Type 0 where
  pub anyone : id ≡ 0 → after ≡ each without_download before
  pub found :
      (pre post : List (Option GameInfo)) (g : GameInfo)
      → id ≢ 0
      → before ≡ pre ++ (some g ∷ post)
      → Lacks id pre
      → g.process_id ≡ id
      → after ≡ pre ++ (some (without_download g) ∷ post)
  pub lost :
      id ≢ 0
      → Lacks id before
      → after ≡ each (λ g. if g.process_id == 0 then g else without_download g) before

anyone-finished :
    (infos : List (Option GameInfo))
    → update_first 0 finish_download infos ≡ each without_download infos
unfolding update_first each
anyone-finished [] = refl
anyone-finished (none ∷ infos) = ap (λ gs. none ∷ gs) (anyone-finished infos)
anyone-finished (some g ∷ infos) = ap (λ gs. some (finish_download g) ∷ gs) (anyone-finished infos)

found-finished :
    (id : ℕ) (pre post : List (Option GameInfo)) (g : GameInfo)
    → id ≢ 0
    → Lacks id pre
    → g.process_id ≡ id
    → (update_first id finish_download (pre ++ (some g ∷ post))
        ≡ pre ++ (some (without_download g) ∷ post))
      × (has_client id (pre ++ (some g ∷ post)) ≡ true)
unfolding update_first has_client
found-finished id [] post g ne lacks same =
    let other : (id == 0) ≡ false = ground arith in
    let mine : (g.process_id == id) ≡ true = ground arith in simp (other, mine) (refl, refl)
found-finished id (none ∷ pre) post g ne lacks same =
    let (rest, there) = found-finished id pre post g ne lacks same in
    (ap (λ gs. none ∷ gs) rest, there)
found-finished id (some h ∷ pre) post g ne (apart, lacks) same =
    let (rest, there) = found-finished id pre post g ne lacks same in
    let other : (id == 0) ≡ false = ground arith in
    let theirs : (h.process_id == id) ≡ false = ground arith in
    simp (other, theirs, rest, there) (refl, refl)

lost-finished :
    (id : ℕ) (infos : List (Option GameInfo))
    → id ≢ 0
    → Lacks id infos
    → (update_running finish_download infos
        ≡ each (λ g. if g.process_id == 0 then g else without_download g) infos)
      × (has_client id infos ≡ false)
unfolding update_running has_client each
lost-finished id [] ne lacks = (refl, refl)
lost-finished id (none ∷ infos) ne lacks =
    let (rest, gone) = lost-finished id infos ne lacks in (ap (λ gs. none ∷ gs) rest, gone)
lost-finished id (some g ∷ infos) ne (apart, lacks) =
    let (rest, gone) = lost-finished id infos ne lacks in
    let other : (id == 0) ≡ false = ground arith in
    let theirs : (g.process_id == id) ≡ false = ground arith in
    elim (Bool-cases (g.process_id == 0)) [
      | inl idle ↦ simp (idle, other, theirs, rest, gone) (refl, refl)
      | inr busy ↦ simp (busy, other, theirs, rest, gone) (refl, refl)
    ]

pub finished-IsSettled :
    (id : ℕ) (infos : List (Option GameInfo)) → IsSettled id infos (mark_client id finished infos)
unfolding mark_client
finished-IsSettled id infos = record {
  anyone = λ e. simp e (ground (arith, anyone-finished infos));
  found = λ pre post g ne e lacks same.
      let (rest, there) = found-finished id pre post g ne lacks same in simp (e, there) rest;
  lost = λ ne lacks.
      let (rest, gone) = lost-finished id infos ne lacks in
      let other : (id == 0) ≡ false = ground arith in simp (gone, other) rest;
}

-- After any marks of one download of process `id` and the mark that it is finished, whatever the list:
-- where `id` is 0, no entry shows a download and nothing else is changed; where an entry is of process
-- `id`, that holds of the first such entry alone, and all others are as before; and where none is, it
-- holds of the entries whose process id is not 0, and all others are as before.
pub run_marks-IsSettled :
    (id : ℕ) (ms : List Mark) (infos : List (Option GameInfo))
    → IsSettled id infos (run_marks id ms infos)
run_marks-IsSettled id ms infos =
    subst (IsSettled id infos) (sym (run_marks-finished id ms infos)) (finished-IsSettled id infos)
