-- ===== src/Web/Outcomes.antt =====
-- What a download request to RebornLauncher/WebService.cpp answers and leaves.
use reborn_launcher.Base.{◌++◌, ℕ, ◌≡◌, ◌⊎◌, true, false, List, [], ◌∷◌, Option, none, some, Text}
use reborn_launcher.Sync.{VersionConfig}
use reborn_launcher.Clients.{GameInfo, start, progress}
use reborn_launcher.Clients.Downloads.{IsSettled}
use reborn_launcher.Web.{
  shown_size, join_url_path, Fetch, Outcome, async_queue_key, find_entry, mark_all,
}

-- The page of an entry that was found is the page asked for, but for the direction of slashes and the
-- case of letters.
abbrev KeepsKey : Text → Option (Text × VersionConfig) → Type 0
KeepsKey page none = Unit
KeepsKey page (some (p, cfg)) = async_queue_key p ≡ async_queue_key page

-- What a download of the page that was found makes of the answer.
pub record IsReply (page : Text) (fetch : Fetch) (o : Option Outcome) : Type 0 where
  pub thrown : fetch.threw ≡ true → o ≡ none
  pub failed :
      fetch.threw ≡ false
      → fetch.ok ≡ false
      → o ≡ some (record { status = 502; success = false; resolved_page = [] })
  pub put_off :
      fetch.threw ≡ false
      → fetch.ok ≡ true
      → fetch.deferred ≡ true
      → o ≡ some (record { status = 202; success = true; resolved_page = page })
  pub succeeded :
      fetch.threw ≡ false
      → fetch.ok ≡ true
      → fetch.deferred ≡ false
      → o ≡ some (record { status = 200; success = true; resolved_page = page })

module _ (to_string : ℕ → Text) (fetch : Text → Text → Fetch) (base page : Text) (pid : ℕ)
    (files refreshed : List (Text × VersionConfig)) where
  -- No file of either manifest has the page as its path.
  pub record IsMissing (infos : List (Option GameInfo))
      (r : Option Outcome × List (Option GameInfo)) : Type 0 where
    pub not_before : find_entry page files ≡ none
    pub not_after : find_entry page refreshed ≡ none
    pub answer : r.0 ≡ some (record { status = 404; success = false; resolved_page = [] })
    pub settled : IsSettled pid infos r.1

  -- A file was found, and downloaded from the URL of its time and path.
  pub record IsFetched (infos : List (Option GameInfo))
      (r : Option Outcome × List (Option GameInfo)) : Type 0 where
    pub found : Text
    pub cfg : VersionConfig
    pub same : async_queue_key found ≡ async_queue_key page
    pub answer :
        IsReply found (fetch (join_url_path base (to_string cfg.time ++ 47 ∷ found)) found) r.0
    pub settled :
        (fetch (join_url_path base (to_string cfg.time ++ 47 ∷ found)) found).threw ≡ false
        → IsSettled pid infos r.1
    pub left :
        (fetch (join_url_path base (to_string cfg.time ++ 47 ∷ found)) found).threw ≡ true
        → r.1
          ≡ mark_all pid
              (start page
                ∷ progress 0 (shown_size cfg.size)
                ∷ (fetch (join_url_path base (to_string cfg.time ++ 47 ∷ found)) found).marks)
              infos

  abbrev pub Served : List (Option GameInfo) → Option Outcome × List (Option GameInfo) → Type 0
  Served infos r = IsMissing infos r ⊎ IsFetched infos r
