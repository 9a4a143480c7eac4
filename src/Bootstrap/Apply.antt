-- ===== src/Bootstrap/Apply.antt =====
-- `applyBootstrapRoot` of RebornLauncher/Manifest.cpp: the state after it, and how it ends.
use reborn_launcher.Base.{List, [], ◌∷◌, Option, none, some, if◌then◌else◌, Text}
use reborn_launcher.Deferred.{is_empty_text}
use reborn_launcher.Paths.{local_only_files}
use reborn_launcher.P2p.Endpoint.{Result, returns, throws}
use reborn_launcher.Bootstrap.{
  Content, Root, Resolution, Ending, refused, threw, is_http_url, manifest_url, update_root,
  base_packages, of_root, closed_page, resolved_manifest, apply_p2p,
}

-- The end: the packages, and the settings of peer-to-peer downloads.
unfoldable pub with_packages : Root → Resolution → List Text → Resolution × Ending
with_packages root c [] = (c, refused)
with_packages root c (_ ∷ _) = apply_p2p root.p2p c

unfoldable pub with_host :
    Root → Text → Resolution → Result (Option (Text × Text)) → Resolution × Ending
unfolding with_packages
with_host root url c throws = (c, threw)
with_host root url c (returns none) = (c, refused)
with_host root url c (returns (some (host, page))) =
    let directory = closed_page page in
    with_packages root
      (record c { url = host; page = directory; manifest_path = resolved_manifest directory url })
      c.package_urls

-- From the manifest's URL `url` on, with the host and path of it where it is absolute; `at` is the
-- update root.
unfoldable pub with_base :
    (Text → Result (Option (Text × Text)))
    → Root
    → Text
    → Text
    → Resolution
    → Result (Option (Text × Text))
    → Resolution × Ending
unfolding with_host
with_base extract root url at c throws = (c, threw)
with_base extract root url at c (returns none) =
    if is_http_url url then (c, refused) else with_host root url c (of_root extract c.url none at)
with_base extract root url at c (returns (some base)) =
    with_host root url (record c { manifest_path = url }) (of_root extract c.url (some base) at)

unfoldable pub with_urls :
    (Text → Result (Option (Text × Text)))
    → Root
    → Text
    → Text
    → Resolution
    → Option (List Text)
    → Resolution × Ending
unfolding with_base
with_urls extract root url at c none = (record c { package_urls = [] }, threw)
with_urls extract root url at c (some packages) =
    with_base extract root url at (record c { package_urls = packages })
      (if is_http_url url then extract url else returns none)

unfoldable pub with_root :
    (Text → Result (Option (Text × Text)))
    → Root
    → Content
    → Text
    → Resolution
    → Option Text
    → Resolution × Ending
unfolding with_urls
with_root extract root content url c none = (c, threw)
with_root extract root content url c (some at) =
    with_urls extract root url at c (base_packages content)

unfoldable pub with_manifest :
    (Text → Result (Option (Text × Text)))
    → Root
    → Content
    → Resolution
    → Option Text
    → Resolution × Ending
unfolding with_root
with_manifest extract root content c none = (c, threw)
with_manifest extract root content c (some url) =
    if is_empty_text url
    then (c, refused)
    else with_root extract root content url c (update_root content)

unfoldable pub with_content :
    (Text → Result (Option (Text × Text)))
    → Root
    → Resolution
    → Option Content
    → Resolution × Ending
unfolding with_manifest
with_content extract root c none = (c, refused)
with_content extract root c (some content) =
    with_manifest extract root content c (manifest_url content)

or_download : Option Content → Option Content → Option Content
or_download none download = download
or_download (some content) download = some content

-- `applyBootstrapRoot`, where `extract` is `ExtractBaseAndPath` and `normal` what std::filesystem makes
-- of a path.
unfoldable pub apply_bootstrap_root :
    (Text → Result (Option (Text × Text)))
    → (Text → Option Text)
    → Root
    → Resolution
    → Resolution × Ending
unfolding with_content or_download
apply_bootstrap_root extract normal root c =
    with_content extract root (record c { local_files = local_only_files normal root.local_only })
      (or_download root.content root.download)
