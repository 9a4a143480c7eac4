-- ===== src/Bootstrap/Directory.antt =====
-- The directory and the manifest path that a bootstrap configuration gives (RebornLauncher/Manifest.cpp).
use reborn_launcher.Base.{
  ℕ, ◌≡◌, refl, ◌∙◌, ap, false, [], ◌∷◌, ◌++◌, map, ◌==◌, if◌then◌else◌, if-cases, Bool-cases, inl,
  inr, Text, arith, length, ◌<◌,
}
use reborn_launcher.Deferred.{is_empty_text}
use reborn_launcher.Paths.{slash}
use reborn_launcher.Urls.{with_slash, close_slash, join_url_path, normalize_relative_url_path}
use reborn_launcher.Bootstrap.{
  Resolution, is_http_url, closed_page, resolved_manifest, version_dat, rooted,
}

-- A directory of a URL: it begins and ends with '/'.
abbrev pub IsDirectory : Text → Type 0
IsDirectory page = ((rest : Text) × (page ≡ 47 ∷ rest)) × (close_slash page ≡ page)

pub record IsResolved (c : Resolution) : Type 0 where
  pub directory : IsDirectory c.page
  pub manifest : is_empty_text c.manifest_path ≡ false
  pub packages : 0 < length c.package_urls

with_slash-first : (s : Text) → is_empty_text s ≡ false → (rest : Text) × (with_slash s ≡ 47 ∷ rest)
unfolding with_slash is_empty_text
with_slash-first [] h = cc
with_slash-first (c ∷ s) h = elim (Bool-cases (c == 47)) [
  | inl slashed ↦ let eq : c ≡ 47 = ground arith in simp slashed (s, ap (λ d. d ∷ s) eq)
  | inr other ↦ simp other (c ∷ s, refl)
]

close_slash-first : (s : Text) → (rest : Text) × (close_slash (47 ∷ s) ≡ 47 ∷ rest)
unfolding close_slash
close_slash-first [] = ([], refl)
close_slash-first (d ∷ s) = (close_slash (d ∷ s), refl)

close_slash-filled : (c : ℕ) (s : Text) → is_empty_text (close_slash (c ∷ s)) ≡ false
unfolding close_slash is_empty_text
close_slash-filled c [] =
    if-cases (λ t. is_empty_text t ≡ false) (c == 47) _ _ (λ _. refl) (λ _. refl)
close_slash-filled c (d ∷ s) = refl

close_slash-cons :
    (c : ℕ) (s : Text) → is_empty_text s ≡ false → close_slash (c ∷ s) ≡ c ∷ close_slash s
unfolding close_slash is_empty_text
close_slash-cons c [] h = cc
close_slash-cons c (d ∷ s) h = refl

root_closed : close_slash (47 ∷ []) ≡ 47 ∷ []
unfolding close_slash
root_closed = refl

close_slash-twice : (s : Text) → close_slash (close_slash s) ≡ close_slash s
unfolding close_slash
close_slash-twice [] = refl
close_slash-twice (c ∷ []) = elim (Bool-cases (c == 47)) [
  | inl slashed ↦ rw slashed (rw slashed refl)
  | inr other ↦ rw other refl
]
close_slash-twice (c ∷ d ∷ s) =
    close_slash-cons c (close_slash (d ∷ s)) (close_slash-filled d s)
    ∙ ap (λ t. c ∷ t) (close_slash-twice (d ∷ s))

pub closed_page-IsDirectory : (page : Text) → IsDirectory (closed_page page)
unfolding closed_page
closed_page-IsDirectory page =
    if-cases IsDirectory (is_empty_text page) _ _ (λ _. (([], refl), root_closed))
      (λ filled.
        let (s, first) = with_slash-first page filled in
        let (rest, closed) = close_slash-first s in
        ((rest, ap close_slash first ∙ closed), close_slash-twice (with_slash page)))

append-filled : (s t : Text) → is_empty_text s ≡ false → is_empty_text (s ++ t) ≡ false
unfolding is_empty_text
append-filled [] t h = cc
append-filled (c ∷ s) t h = refl

-- A path below a directory is not empty.
join-filled : (rest child : Text) → is_empty_text (join_url_path (47 ∷ rest) child) ≡ false
unfolding join_url_path with_slash slash is_empty_text
join-filled rest child = append-filled _ _ (close_slash-filled 47 (map slash rest))

pub resolved_manifest-filled :
    (page url : Text) → IsDirectory page → is_empty_text (resolved_manifest page url) ≡ false
unfolding resolved_manifest
resolved_manifest-filled page url ((rest, first), closed) =
    let path =
      if is_http_url url
      then url
      else if rooted url
      then normalize_relative_url_path url
      else join_url_path page url in
    if-cases (λ t. is_empty_text t ≡ false) (is_empty_text path) _ _
      (λ _. rw first (join-filled rest version_dat)) (λ filled. filled)
