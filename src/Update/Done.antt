-- ===== src/Update/Done.antt =====
-- What holds when the files are up to date (RebornLauncher/RuntimeUpdater.cpp and
-- LauncherUpdateCoordinator.cpp).
use reborn_launcher.Base.{
  suc, ap, ◌++◌, ◌+◌, length, ℕ, ◌≡◌, refl, sym, ◌∙◌, ◌⊎◌, Bool, true, false, ◌&&◌, List, [], ◌∷◌,
  Option, none, some, if-cases, inl, inr, Text, arith, All,
}
use reborn_launcher.Sync.{VersionConfig}
use reborn_launcher.Web.{resolve_file_config_by_page}
use reborn_launcher.P2p.{contains}
use reborn_launcher.Archive.Extract.{Archive, verify_archive_readable}
use reborn_launcher.Update.{
  Updated, Offer, local_name, remote_page, one_more, self_too, update_entry, update_runtime_files,
  launcher_name, chosen_archive, unpack_chosen, download_base_package, absolute_package_url,
  local_archive_path,
}

module _ (to_string : ℕ → Text) (fetch : Text → Text → Bool) (skips : Text → Bool) (base : Text)
    (files : List (Text × VersionConfig)) where
  -- A file of the list that is in the manifest, and is left alone or was downloaded.
  pub record IsCurrent (download : Text) : Type 0 where
    pub page : Text
    pub cfg : VersionConfig
    pub found : resolve_file_config_by_page files download ≡ some (page, cfg)
    pub settled :
        (skips page ≡ true) ⊎ (fetch (remote_page to_string base page cfg) (local_name page) ≡ true)

  -- A file of the list that is not in the manifest, or that is not left alone and whose download failed.
  abbrev pub IsStuck : Text → Type 0
  IsStuck download =
      (resolve_file_config_by_page files download ≡ none)
      ⊎ ((page : Text) × (cfg : VersionConfig) × (resolve_file_config_by_page files download
            ≡ some (page, cfg))
          × (skips page ≡ false)
          × (fetch (remote_page to_string base page cfg) (local_name page) ≡ false))

  -- All files of the list are current, or it stops at the first that is not.
  abbrev pub UpdateOutcome : List Text → Updated → Type 0
  UpdateOutcome list u =
      ((u.ok ≡ true) × All IsCurrent list × (u.finished ≡ length list))
      ⊎ ((u.ok ≡ false)
          × ((pre : List Text) × (download : Text) × (post : List Text) × (list
                ≡ pre ++ (download ∷ post))
              × All IsCurrent pre
              × IsStuck download
              × (u.finished ≡ length pre)))

  more-UpdateOutcome :
      (download : Text) (list : List Text) (u v : Updated)
      → u.ok ≡ v.ok
      → v.finished ≡ 1 + u.finished
      → IsCurrent download
      → UpdateOutcome list u
      → UpdateOutcome (download ∷ list) v
  more-UpdateOutcome download list u v same one current (inl (ok, all, count)) =
      inl (sym same ∙ ok, (current, all), omega arith)
  more-UpdateOutcome download list u v same one current
        (inr (failed, (pre, d, post, e, all, stuck, n))) =
      inr (
        sym same ∙ failed,
        (
          download ∷ pre,
          d,
          post,
          ap (λ l. download ∷ l) e,
          (current, all),
          stuck,
          let more : v.finished ≡ suc (length pre) = omega arith in more,
        ),
      )

  stuck-UpdateOutcome :
      (download : Text) (list : List Text) (u : Updated)
      → u.ok ≡ false
      → u.finished ≡ 0
      → IsStuck download
      → UpdateOutcome (download ∷ list) u
  stuck-UpdateOutcome download list u failed zero_done stuck =
      inr (failed, ([], download, list, refl, tt, stuck, zero_done))

  update_entry-UpdateOutcome :
      (download : Text) (list : List Text) (rest : Updated) (o : Option (Text × VersionConfig))
      → resolve_file_config_by_page files download ≡ o
      → UpdateOutcome list rest
      → UpdateOutcome (download ∷ list) (update_entry to_string fetch skips base o rest)
  unfolding update_entry one_more self_too
  update_entry-UpdateOutcome download list rest none found h =
      stuck-UpdateOutcome download list (record { ok = false; update_self = false; finished = 0 })
        refl refl (inl found)
  update_entry-UpdateOutcome download list rest (some (page, cfg)) found h =
      if-cases (UpdateOutcome (download ∷ list)) (skips page) _ _
        (λ skipped.
          more-UpdateOutcome download list rest (one_more rest) refl refl
            (record { page = page; cfg = cfg; found = found; settled = inl skipped }) h)
        (λ kept.
          if-cases (UpdateOutcome (download ∷ list))
            (fetch (remote_page to_string base page cfg) (local_name page)) _ _
            (λ got.
              more-UpdateOutcome download list rest
                (self_too (contains launcher_name page) (one_more rest)) refl refl
                (record { page = page; cfg = cfg; found = found; settled = inr got }) h)
            (λ missed.
              stuck-UpdateOutcome download list
                (record { ok = false; update_self = contains launcher_name page; finished = 0 })
                refl refl (inr (page, cfg, found, kept, missed))))

  -- The update of the runtime files, for any list and any manifest: it either returns true, each file
  -- of the list is in the manifest and was skipped or downloaded, and as many are counted; or it
  -- returns false, and stops at a file of the list that is not in the manifest, or is not skipped and
  -- fails to download, where all files before it are in the manifest and were skipped or downloaded,
  -- and as many are counted.
  pub update_runtime_files-UpdateOutcome :
      (list : List Text)
      → UpdateOutcome list (update_runtime_files to_string fetch skips base files list)
  unfolding update_runtime_files
  update_runtime_files-UpdateOutcome [] = inl (refl, tt, refl)
  update_runtime_files-UpdateOutcome (download ∷ list) =
      update_entry-UpdateOutcome download list _ (resolve_file_config_by_page files download) refl
        (update_runtime_files-UpdateOutcome list)

-- No transport got a readable archive for the URL.
abbrev pub IsMissed : (Text → Text → Offer) → Text → Text → Type 0
IsMissed offers host link =
    let url = absolute_package_url host link in
    let offer = offers url (local_archive_path url) in
    ((offer.by_p2p && offer.p2p_ok && verify_archive_readable offer.p2p_archive) ≡ false)
    × ((offer.http_ok && verify_archive_readable offer.http_archive) ≡ false)

-- The result of the base package, by the archive that was unpacked.
abbrev pub IsUnpacked :
    (Archive → Option Bool) → (Text → Text → Offer) → Text → List Text → Option Bool → Type 0
IsUnpacked unpack offers host links result =
    ((result ≡ some false) × All (IsMissed offers host) links)
    ⊎ ((a : Archive) × (verify_archive_readable a ≡ true) × (result ≡ unpack a))

abbrev IsChosen : (Text → Text → Offer) → Text → List Text → Option Archive → Type 0
IsChosen offers host links none = All (IsMissed offers host) links
IsChosen offers host links (some a) = verify_archive_readable a ≡ true

later-IsChosen :
    (offers : Text → Text → Offer) (host link : Text) (links : List Text) (o : Option Archive)
    → IsMissed offers host link
    → IsChosen offers host links o
    → IsChosen offers host (link ∷ links) o
later-IsChosen offers host link links none missed h = (missed, h)
later-IsChosen offers host link links (some a) missed h = h

second_true : (a b : Bool) → a && b ≡ true → b ≡ true
second_true a b h = ground arith

chosen_archive-IsChosen :
    (offers : Text → Text → Offer) (host : Text) (links : List Text)
    → IsChosen offers host links (chosen_archive offers host links)
unfolding chosen_archive
chosen_archive-IsChosen offers host [] = tt
chosen_archive-IsChosen offers host (link ∷ links) =
    let url = absolute_package_url host link in
    let offer = offers url (local_archive_path url) in
    let P = IsChosen offers host (link ∷ links) in
    if-cases P (offer.by_p2p && offer.p2p_ok && verify_archive_readable offer.p2p_archive) _ _
      (λ got. second_true _ _ got)
      (λ by_peers.
        if-cases P (offer.http_ok && verify_archive_readable offer.http_archive) _ _
          (λ got. second_true _ _ got)
          (λ by_http.
            later-IsChosen offers host link links _ (by_peers, by_http)
              (chosen_archive-IsChosen offers host links)))

unpack_chosen-IsUnpacked :
    (unpack : Archive → Option Bool) (offers : Text → Text → Offer) (host : Text)
    (links : List Text) (o : Option Archive)
    → IsChosen offers host links o
    → IsUnpacked unpack offers host links (unpack_chosen unpack o)
unfolding unpack_chosen
unpack_chosen-IsUnpacked unpack offers host links none missed = inl (refl, missed)
unpack_chosen-IsUnpacked unpack offers host links (some a) readable = inr (a, readable, refl)

-- The download of the base package, whatever the transports do: either it returns false, and for no
-- URL of the list a transport got an archive that can be read; or it returns what unpacking returns
-- for an archive that can be read.
pub download_base_package-IsUnpacked :
    (unpack : Archive → Option Bool) (offers : Text → Text → Offer) (host : Text)
    (links : List Text)
    → IsUnpacked unpack offers host links (download_base_package unpack offers host links)
unfolding download_base_package
download_base_package-IsUnpacked unpack offers host links =
    unpack_chosen-IsUnpacked unpack offers host links (chosen_archive offers host links)
      (chosen_archive-IsChosen offers host links)
