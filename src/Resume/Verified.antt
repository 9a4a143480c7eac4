-- ===== src/Resume/Verified.antt =====
-- What a download of one file has checked when it returns true (DownloadResume.cpp).
use reborn_launcher.Base.{none, ◌^◌, ◌≡◌, ◌<◌, true, false, List, Option, some, Text}
use reborn_launcher.Files.{FileData}
use reborn_launcher.Deferred.{Deferred, normalize_key, member, is_empty_text, to_lower_ascii}
use reborn_launcher.Sync.{VersionConfig}
use reborn_launcher.Clients.{GameInfo, finished, mark_client}
use reborn_launcher.Resume.{ResumeAnswers, Request, World, Resumed, resolve_version_config_by_path}

-- The file is there, with the manifest's size if it gives one, and the manifest's MD5 if it gives one.
abbrev pub IsVerified : (FileData → Text) → Request → World → Type 0
IsVerified md5 q w =
    (f : FileData) × (w.file ≡ some f)
    × ((cfg : VersionConfig)
        → resolve_version_config_by_path q.files q.path ≡ some cfg
        → (0 < cfg.size → cfg.size < 2 ^ 63 → f.size ≡ cfg.size)
          × (is_empty_text cfg.md5 ≡ false → to_lower_ascii (md5 f) ≡ to_lower_ascii cfg.md5))

module _ (md5 : FileData → Text) (a : ResumeAnswers) (q : Request)
    (infos begun_infos : List (Option GameInfo)) where
  -- The marks so far are those of this download.
  abbrev IsMarked : World → Type 0
  IsMarked w = mark_client q.owner finished w.infos ≡ mark_client q.owner finished infos

  -- What an exception leaves: the mark that the download is at 0 bytes.
  abbrev IsLeft : Resumed → Type 0
  IsLeft r =
      (r.ok ≡ false)
      × (r.queued ≡ false)
      × (q.allow_p2p ≡ true)
      × (a.p2p ≡ none)
      × (r.world.infos ≡ begun_infos)

  record IsSound (r : Resumed) : Type 0 where
    pub marked : r.threw ≡ false → r.world.infos ≡ mark_client q.owner finished infos
    pub left : r.threw ≡ true → IsLeft r
    pub verified : r.ok ≡ true → r.queued ≡ false → IsVerified md5 q r.world
    pub deferred :
        r.queued ≡ true
        → (r.ok ≡ true)
          × (q.allow_deferred ≡ true)
          × (member (normalize_key q.path) r.world.deferred.queued_paths ≡ true)
