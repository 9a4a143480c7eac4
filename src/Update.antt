-- ===== src/Update.antt =====
-- Bringing the files up to date before the game starts (RebornLauncher/RuntimeUpdater.cpp,
-- and `DownloadBasePackage` of LauncherUpdateCoordinator.cpp, as built for release).
-- `skips` is `IsRuntimeUpdateSkipped` where it does not throw, `fetch` whether `DownloadWithResume`
-- returns true, and an `Offer` what the transports do for one URL of the base package.
pub mod Done
use reborn_launcher.Base.{
  ◌+◌, ℕ, Bool, true, false, not, ◌&&◌, ◌||◌, List, [], ◌∷◌, ◌++◌, Option, none, some, map, ◌==◌,
  if◌then◌else◌, text_eq, Text, length,
}
use reborn_launcher.Deferred.{is_empty_text}
use reborn_launcher.Paths.{slash}
use reborn_launcher.Sync.{VersionConfig}
use reborn_launcher.Urls.{join_url_path, normalize_relative_url_path}
use reborn_launcher.P2p.{contains}
use reborn_launcher.Web.{resolve_file_config_by_page}
use reborn_launcher.Archive.{Normal, archive_file_name}
use reborn_launcher.Archive.Extract.{Archive, Disk, verify_archive_readable}
use reborn_launcher.Archive.Batches.{extract_7z}
use reborn_launcher.Bootstrap.{before_char, is_http_url}

-- "RebornLauncher.exe" and "UpdateTemp.exe".
abbrev pub launcher_name : Text
launcher_name =
    82 ∷ 101 ∷ 98 ∷ 111 ∷ 114 ∷ 110 ∷ 76 ∷ 97 ∷ 117 ∷ 110 ∷ 99 ∷ 104 ∷ 101 ∷ 114 ∷ 46 ∷ 101 ∷ 120
    ∷ 101 ∷ []

abbrev pub update_name : Text
update_name = 85 ∷ 112 ∷ 100 ∷ 97 ∷ 116 ∷ 101 ∷ 84 ∷ 101 ∷ 109 ∷ 112 ∷ 46 ∷ 101 ∷ 120 ∷ 101 ∷ []

-- The name under which a page is stored, and the URL that it comes from.
unfoldable pub local_name : Text → Text
unfolding contains
local_name page = if contains launcher_name page then update_name else page

unfoldable pub remote_page : (ℕ → Text) → Text → Text → VersionConfig → Text
remote_page to_string base page cfg = join_url_path base (to_string cfg.time ++ 47 ∷ page)

-- What a run returns, whether the launcher is to update itself, and the files that are finished.
pub record Updated : Type 0 where
  pub ok : Bool
  pub update_self : Bool
  pub finished : ℕ

unfoldable pub one_more : Updated → Updated
one_more u = record u { finished = 1 + u.finished }

unfoldable pub self_too : Bool → Updated → Updated
self_too b u = record u { update_self = b || u.update_self }

unfoldable pub update_entry :
    (ℕ → Text)
    → (Text → Text → Bool)
    → (Text → Bool)
    → Text
    → Option (Text × VersionConfig)
    → Updated
    → Updated
unfolding local_name remote_page one_more self_too
update_entry to_string fetch skips base none rest = record {
  ok = false;
  update_self = false;
  finished = 0;
}
update_entry to_string fetch skips base (some (page, cfg)) rest =
    let self = contains launcher_name page in
    if skips page
    then one_more rest
    else if fetch (remote_page to_string base page cfg) (local_name page)
    then self_too self (one_more rest)
    else record { ok = false; update_self = self; finished = 0 }

-- `RuntimeUpdater::Execute`, of the list of runtime files.
unfoldable pub update_runtime_files :
    (ℕ → Text)
    → (Text → Text → Bool)
    → (Text → Bool)
    → Text
    → List (Text × VersionConfig)
    → List Text
    → Updated
unfolding update_entry
update_runtime_files to_string fetch skips base files [] = record {
  ok = true;
  update_self = false;
  finished = 0;
}
update_runtime_files to_string fetch skips base files (download ∷ list) =
    update_entry to_string fetch skips base (resolve_file_config_by_page files download)
      (update_runtime_files to_string fetch skips base files list)

-- `GetFileNameFromUrl`.
unfoldable pub file_name_from_url : Text → Text
file_name_from_url url = archive_file_name (map slash (before_char 63 (before_char 35 url)))

-- "base_package.7z".
abbrev pub base_package_name : Text
base_package_name =
    98 ∷ 97 ∷ 115 ∷ 101 ∷ 95 ∷ 112 ∷ 97 ∷ 99 ∷ 107 ∷ 97 ∷ 103 ∷ 101 ∷ 46 ∷ 55 ∷ 122 ∷ []

unfoldable pub absolute_package_url : Text → Text → Text
absolute_package_url host url =
    if is_http_url url then url else host ++ normalize_relative_url_path url

unfoldable pub local_archive_path : Text → Text
unfolding file_name_from_url
local_archive_path url =
    let name = file_name_from_url url in if is_empty_text name then base_package_name else name

-- What is got for a URL and its local path: whether there is a peer-to-peer path, and what each
-- transport returns, and the archive that it leaves.
pub record Offer : Type 0 where
  pub by_p2p : Bool
  pub p2p_ok : Bool
  pub p2p_archive : Archive
  pub http_ok : Bool
  pub http_archive : Archive

-- The first archive that is downloaded and can be read.
unfoldable pub chosen_archive : (Text → Text → Offer) → Text → List Text → Option Archive
unfolding absolute_package_url local_archive_path
chosen_archive offers host [] = none
chosen_archive offers host (link ∷ links) =
    let url = absolute_package_url host link in
    let offer = offers url (local_archive_path url) in
    let rest = chosen_archive offers host links in
    if offer.by_p2p && offer.p2p_ok && verify_archive_readable offer.p2p_archive
    then some offer.p2p_archive
    else if offer.http_ok && verify_archive_readable offer.http_archive
    then some offer.http_archive
    else rest

unfoldable pub unpack_chosen : (Archive → Option Bool) → Option Archive → Option Bool
unpack_chosen unpack none = some false
unpack_chosen unpack (some a) = unpack a

-- `DownloadBasePackage` (`none`: undefined), where `unpack` is what `Extract7z` into "." returns.
unfoldable pub download_base_package :
    (Archive → Option Bool) → (Text → Text → Offer) → Text → List Text → Option Bool
unfolding chosen_archive unpack_chosen
download_base_package unpack offers host links =
    unpack_chosen unpack (chosen_archive offers host links)
