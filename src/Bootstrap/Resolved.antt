-- ===== src/Bootstrap/Resolved.antt =====
-- What a bootstrap configuration that is accepted has set (RebornLauncher/Manifest.cpp).
use reborn_launcher.Base.{
  ◌⊎◌, ◌≡◌, refl, sym, ◌∙◌, subst, true, false, List, [], ◌∷◌, Option, none, some, if◌then◌else◌,
  if-cases, Bool-cases, inl, inr, Text, arith, length, ◌<◌,
}
use reborn_launcher.Deferred.{is_empty_text}
use reborn_launcher.Paths.{local_only_files}
use reborn_launcher.P2p.Endpoint.{Result, returns, throws}
use reborn_launcher.Bootstrap.{
  update_root, returns, set_token, trim_ascii, set_endpoint, set_stun, Ending, Result, Content,
  Root, Resolution, P2pJson, is_http_url, manifest_url, base_packages, closed_page,
  resolved_manifest, apply_p2p, Ending, accepted, refused, threw,
}
use reborn_launcher.Bootstrap.Apply.{
  with_root, with_manifest, with_urls, with_packages, with_host, with_base, with_content,
  apply_bootstrap_root,
}
use reborn_launcher.Bootstrap.Directory.{
  IsDirectory, IsResolved, closed_page-IsDirectory, resolved_manifest-filled,
}

-- The settings of peer-to-peer downloads are the same.
abbrev pub SameP2p : Resolution → Resolution → Type 0
SameP2p old c =
    (c.signal_endpoint ≡ old.signal_endpoint)
    × (c.signal_token ≡ old.signal_token)
    × (c.stun_servers ≡ old.stun_servers)

-- The token of the JSON cannot be read, after its URL was taken for an endpoint that was empty.
abbrev pub IsHalfSet : Root → Resolution → Resolution → Type 0
IsHalfSet root old c =
    (p : P2pJson) × (url : Text) × (root.p2p ≡ some p)
    × (p.signal_url ≡ some url)
    × (p.signal_auth_token ≡ none)
    × (is_empty_text old.signal_endpoint ≡ true)
    × (c.signal_endpoint ≡ trim_ascii url)
    × (c.signal_token ≡ old.signal_token)
    × (c.stun_servers ≡ old.stun_servers)

-- What the configuration sets where it is accepted, and what it leaves where it is not.
abbrev pub IsApplied : Root → Resolution → Resolution × Ending → Type 0
IsApplied root old (c, accepted) = IsResolved c
IsApplied root old (c, refused) = SameP2p old c
IsApplied root old (c, threw) = SameP2p old c ⊎ IsHalfSet root old c

set_stun-IsResolved :
    (servers : List Text) (c : Resolution) → IsResolved c → IsResolved (set_stun servers c)
unfolding set_stun
set_stun-IsResolved [] c h = h
set_stun-IsResolved (s ∷ servers) c h = record {
  directory = h.directory;
  manifest = h.manifest;
  packages = h.packages;
}

endpoint_after :
    (root : Root) (p : P2pJson) (url : Text) (c : Resolution)
    → root.p2p ≡ some p
    → p.signal_url ≡ some url
    → p.signal_auth_token ≡ none
    → let c' = record c {
      signal_endpoint =
          if is_empty_text c.signal_endpoint then trim_ascii url else c.signal_endpoint;
    } in
      SameP2p c c' ⊎ IsHalfSet root c c'
endpoint_after root p url c e u t = elim (Bool-cases (is_empty_text c.signal_endpoint)) [
  | inl blank ↦ inr (p, url, e, u, t, blank, rw blank refl, refl, refl)
  | inr filled ↦ inl (rw filled refl, refl, refl)
]

set_token-IsApplied :
    (root : Root) (p : P2pJson) (url : Text) (c : Resolution) (token : Option Text)
    → root.p2p ≡ some p
    → p.signal_url ≡ some url
    → p.signal_auth_token ≡ token
    → IsResolved c
    → IsApplied root c (
        set_token p
          (record c {
            signal_endpoint =
                if is_empty_text c.signal_endpoint then trim_ascii url else c.signal_endpoint;
          })
          token)
unfolding set_token
set_token-IsApplied root p url c none e u t h = endpoint_after root p url c e u t
set_token-IsApplied root p url c (some token) e u t h =
    set_stun-IsResolved p.stun_servers _
      (record { directory = h.directory; manifest = h.manifest; packages = h.packages })

set_endpoint-IsApplied :
    (root : Root) (p : P2pJson) (c : Resolution) (url : Option Text)
    → root.p2p ≡ some p
    → p.signal_url ≡ url
    → IsResolved c
    → IsApplied root c (set_endpoint p c url)
unfolding set_endpoint
set_endpoint-IsApplied root p c none e u h = inl (refl, refl, refl)
set_endpoint-IsApplied root p c (some url) e u h =
    set_token-IsApplied root p url c p.signal_auth_token e u refl h

apply_p2p-IsApplied :
    (root : Root) (o : Option P2pJson) (c : Resolution)
    → root.p2p ≡ o
    → IsResolved c
    → IsApplied root c (apply_p2p o c)
unfolding apply_p2p
apply_p2p-IsApplied root none c e h = h
apply_p2p-IsApplied root (some p) c e h = set_endpoint-IsApplied root p c p.signal_url e refl h

packages_known :
    (root : Root) (c : Resolution) (urls : List Text)
    → c.package_urls ≡ urls
    → IsDirectory c.page
    → is_empty_text c.manifest_path ≡ false
    → IsApplied root c (with_packages root c urls)
unfolding with_packages
packages_known root c [] none_left page manifest = (refl, refl, refl)
packages_known root c (url ∷ urls) some_left page manifest =
    let filled : 0 < length c.package_urls =
      subst (λ l. 0 < length l) (sym some_left) (omega arith) in
    apply_p2p-IsApplied root root.p2p c refl
      (record { directory = page; manifest = manifest; packages = filled })

-- The facts depend on the former settings of peer-to-peer downloads alone.
moved-IsApplied :
    (root : Root) (old c : Resolution) (r : Resolution × Ending)
    → SameP2p old c
    → IsApplied root c r
    → IsApplied root old r
moved-IsApplied root old c (d, accepted) same h = h
moved-IsApplied root old c (d, refused) (e, t, s) (e', t', s') = (e' ∙ e, t' ∙ t, s' ∙ s)
moved-IsApplied root old c (d, threw) (e, t, s) (inl (e', t', s')) = inl (e' ∙ e, t' ∙ t, s' ∙ s)
moved-IsApplied root old c (d, threw) (e, t, s) (inr (p, url, j, u, a, blank, e', t', s')) =
    inr (p, url, j, u, a, subst (λ x. is_empty_text x ≡ true) e blank, e', t' ∙ t, s' ∙ s)

module _ (extract : Text → Result (Option (Text × Text))) (root : Root) where
  with_host-IsApplied :
      (url : Text) (c : Resolution) (o : Result (Option (Text × Text)))
      → IsApplied root c (with_host root url c o)
  unfolding with_host
  with_host-IsApplied url c throws = inl (refl, refl, refl)
  with_host-IsApplied url c (returns none) = (refl, refl, refl)
  with_host-IsApplied url c (returns (some (host, page))) =
      let directory = closed_page page in
      let at = closed_page-IsDirectory page in
      let c' = record c {
        url = host;
        page = directory;
        manifest_path = resolved_manifest directory url;
      } in
      moved-IsApplied root c c' _ (refl, refl, refl)
        (packages_known root c' c.package_urls refl at (resolved_manifest-filled directory url at))

  with_base-IsApplied :
      (url at : Text) (c : Resolution) (o : Result (Option (Text × Text)))
      → IsApplied root c (with_base extract root url at c o)
  unfolding with_base
  with_base-IsApplied url at c throws = inl (refl, refl, refl)
  with_base-IsApplied url at c (returns none) =
      if-cases (IsApplied root c) (is_http_url url) _ _ (λ _. (refl, refl, refl))
        (λ _. with_host-IsApplied url c _)
  with_base-IsApplied url at c (returns (some base)) =
      let c' = record c { manifest_path = url } in
      moved-IsApplied root c c' _ (refl, refl, refl) (with_host-IsApplied url c' _)

  with_urls-IsApplied :
      (url at : Text) (c : Resolution) (o : Option (List Text))
      → IsApplied root c (with_urls extract root url at c o)
  unfolding with_urls
  with_urls-IsApplied url at c none = inl (refl, refl, refl)
  with_urls-IsApplied url at c (some packages) =
      let c' = record c { package_urls = packages } in
      moved-IsApplied root c c' _ (refl, refl, refl) (with_base-IsApplied url at c' _)

  with_root-IsApplied :
      (content : Content) (url : Text) (c : Resolution) (o : Option Text)
      → IsApplied root c (with_root extract root content url c o)
  unfolding with_root
  with_root-IsApplied content url c none = inl (refl, refl, refl)
  with_root-IsApplied content url c (some at) = with_urls-IsApplied url at c (base_packages content)

  with_manifest-IsApplied :
      (content : Content) (c : Resolution) (o : Option Text)
      → IsApplied root c (with_manifest extract root content c o)
  unfolding with_manifest
  with_manifest-IsApplied content c none = inl (refl, refl, refl)
  with_manifest-IsApplied content c (some url) =
      if-cases (IsApplied root c) (is_empty_text url) _ _ (λ _. (refl, refl, refl))
        (λ _. with_root-IsApplied content url c (update_root content))

  with_content-IsApplied :
      (c : Resolution) (o : Option Content) → IsApplied root c (with_content extract root c o)
  unfolding with_content
  with_content-IsApplied c none = (refl, refl, refl)
  with_content-IsApplied c (some content) = with_manifest-IsApplied content c (manifest_url content)

-- A bootstrap configuration, for any JSON object, any former state and any reading of URLs. Where it
-- is accepted, the directory of downloads begins and ends with '/', the path of the manifest is not
-- empty, and there is at least one base package. Where it is refused, the settings of peer-to-peer
-- downloads stay as they were. Where a field or the port of a URL cannot be read, so that an exception
-- ends it, they stay too, but for the endpoint: where that was empty, it is the JSON's URL if that can
-- be read and the token cannot.
pub apply_bootstrap_root-IsApplied :
    (extract : Text → Result (Option (Text × Text))) (normal : Text → Option Text) (root : Root)
    (c : Resolution)
    → IsApplied root c (apply_bootstrap_root extract normal root c)
unfolding apply_bootstrap_root
apply_bootstrap_root-IsApplied extract normal root c =
    let c' = record c { local_files = local_only_files normal root.local_only } in
    moved-IsApplied root c c' _ (refl, refl, refl) (with_content-IsApplied extract root c' _)
