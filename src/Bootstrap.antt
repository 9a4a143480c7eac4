-- ===== src/Bootstrap.antt =====
-- The bootstrap configuration: `applyBootstrapRoot` in `FetchBootstrapConfig` of
-- RebornLauncher/Manifest.cpp, and the URLs of RebornLauncher/NetUtils.cpp. jsoncpp is a parameter: a
-- `Root` is what it makes of the JSON text: a text field is what `asString` gives, empty where it is
-- absent, and `none` where `asString` throws, for an array or an object. `matches` stands for the
-- regular expression of URLs, `stoi` (`none`: it throws) and `to_string` for the functions of std on
-- the digits of a port. The log level is left aside.
pub mod Apply
pub mod Directory
pub mod Resolved
use reborn_launcher.Base.{
  ℕ, Bool, true, false, not, ◌&&◌, ◌||◌, List, [], ◌∷◌, ◌++◌, Option, none, some, map, ◌==◌,
  if◌then◌else◌, text_eq, Text,
}
use reborn_launcher.Deferred.{is_empty_text}
use reborn_launcher.Paths.{trim_ascii, slash, local_only_files}
use reborn_launcher.Urls.{
  with_slash, close_slash, normalize_relative_url_path, join_url_path, merge_unique,
}
use reborn_launcher.P2p.{begins_with}
use reborn_launcher.P2p.Endpoint.{Groups, Result, returns, throws}

-- "http://" and "https://".
abbrev pub http_start : Text
http_start = 104 ∷ 116 ∷ 116 ∷ 112 ∷ 58 ∷ 47 ∷ 47 ∷ []

abbrev pub https_start : Text
https_start = 104 ∷ 116 ∷ 116 ∷ 112 ∷ 115 ∷ 58 ∷ 47 ∷ 47 ∷ []

-- `IsHttpUrl`.
unfoldable pub is_http_url : Text → Bool
is_http_url value = begins_with http_start value || begins_with https_start value

port_of : (Text → Option ℕ) → Bool → Option Text → Option ℕ
port_of stoi use_tls none = some (if use_tls then 443 else 80)
port_of stoi use_tls (some digits) = stoi digits

of_port : (ℕ → Text) → Groups → Bool → Option ℕ → Result (Option (Text × Text))
of_port to_string g use_tls none = throws
of_port to_string g use_tls (some port) =
    let start = (if use_tls then https_start else http_start) ++ g.host in
    returns (
      some (
        if port == (if use_tls then 443 else 80) then start else start ++ 58 ∷ to_string port,
        if is_empty_text g.path then 47 ∷ [] else with_slash g.path,
      ))

base_and_path : (Text → Option ℕ) → (ℕ → Text) → Option Groups → Result (Option (Text × Text))
unfolding port_of of_port
base_and_path stoi to_string none = returns none
base_and_path stoi to_string (some g) =
    let use_tls = text_eq g.scheme (104 ∷ 116 ∷ 116 ∷ 112 ∷ 115 ∷ []) in
    of_port to_string g use_tls (port_of stoi use_tls g.port)

-- `ExtractBaseAndPath` and `ParseHttpUrl`.
unfoldable pub extract_base_and_path :
    (Text → Option Groups) → (Text → Option ℕ) → (ℕ → Text) → Text → Result (Option (Text × Text))
unfolding base_and_path
extract_base_and_path matches stoi to_string url = base_and_path stoi to_string (matches url)

unfoldable pub before_char : ℕ → Text → Text
before_char c [] = []
before_char c (d ∷ s) = let rest = before_char c s in if d == c then [] else d ∷ rest

has_slash : Text → Bool
has_slash [] = false
has_slash (c ∷ s) = c == 47 || has_slash s

-- A text up to its last '/', which is kept.
unfoldable pub through_last_slash : Text → Text
unfolding has_slash
through_last_slash [] = []
through_last_slash (c ∷ s) =
    let rest = through_last_slash s in if c == 47 || has_slash s then c ∷ rest else []

-- `DirnamePath`.
unfoldable pub dirname_path : Text → Text
unfolding before_char through_last_slash with_slash
dirname_path path =
    let directory = through_last_slash (before_char 63 (map slash path)) in
    if is_empty_text directory then 47 ∷ [] else with_slash directory

-- The object "content" or "download".
pub record Content : Type 0 where
  pub version_manifest_url : Option Text
  pub version_dat_url : Option Text
  pub update_package_root_url : Option Text
  pub runtime_root_url : Option Text
  pub update_root_url : Option Text
  pub base_package_urls : List Text
  pub base_package_url : Option Text

pub record P2pJson : Type 0 where
  pub signal_url : Option Text
  pub signal_auth_token : Option Text
  pub stun_servers : List Text

-- An object that is absent, or no object, is `none`; an item of "local_only_files" that is no text too.
pub record Root : Type 0 where
  pub local_only : List (Option Text)
  pub content : Option Content
  pub download : Option Content
  pub p2p : Option P2pJson

-- The state that the configuration sets: host and directory of downloads, the manifest, the base
-- packages, the local-only files, and the settings of peer-to-peer downloads.
pub record Resolution : Type 0 where
  pub url : Text
  pub page : Text
  pub manifest_path : Text
  pub package_urls : List Text
  pub local_files : List Text
  pub signal_endpoint : Text
  pub signal_token : Text
  pub stun_servers : List Text

unfoldable pub map_trim : Option Text → Option Text
map_trim none = none
map_trim (some a) = some (trim_ascii a)

-- A field, trimmed, or where that is empty, what the next ones give; `none`: reading one throws.
unfoldable pub first_filled : Option Text → Option Text → Option Text
first_filled none b = none
first_filled (some a) b = if is_empty_text (trim_ascii a) then b else some (trim_ascii a)

unfoldable pub manifest_url : Content → Option Text
unfolding first_filled map_trim
manifest_url c = first_filled c.version_manifest_url (map_trim c.version_dat_url)

unfoldable pub update_root : Content → Option Text
unfolding first_filled map_trim
update_root c =
    first_filled c.update_package_root_url
      (first_filled c.runtime_root_url (map_trim c.update_root_url))

-- The base packages; `base_package_urls` are the trimmed texts that `ReadStringArray` keeps.
single_package : Option Text → Option (List Text)
single_package none = none
single_package (some url) =
    some (if is_empty_text (trim_ascii url) then [] else trim_ascii url ∷ [])

unfoldable pub base_packages : Content → Option (List Text)
unfolding single_package
base_packages c = elim c.base_package_urls [
  | [] ↦ single_package c.base_package_url
  | url ∷ urls ↦ some (url ∷ urls)
]

-- The host and the directory; `none`: they cannot be resolved. `base` is the host and the path of an
-- absolute manifest URL.
unfoldable pub of_root :
    (Text → Result (Option (Text × Text)))
    → Text
    → Option (Text × Text)
    → Text
    → Result (Option (Text × Text))
of_root extract old_url base root =
    if is_http_url root
    then extract root
    else if is_empty_text root
    then elim base [
      | none ↦ returns none
      | some (host, path) ↦ returns (some (host, dirname_path path))
    ]
    else elim base [
      | none ↦
          if is_empty_text old_url
          then returns none
          else returns (some (old_url, close_slash (normalize_relative_url_path root)))
      | some (host, path) ↦ returns (some (host, close_slash (normalize_relative_url_path root)))
    ]

-- The tests and changes of `m_networkState.page` at the end.
unfoldable pub closed_page : Text → Text
closed_page page = if is_empty_text page then 47 ∷ [] else close_slash (with_slash page)

-- "Version.dat".
abbrev pub version_dat : Text
version_dat = 86 ∷ 101 ∷ 114 ∷ 115 ∷ 105 ∷ 111 ∷ 110 ∷ 46 ∷ 100 ∷ 97 ∷ 116 ∷ []

unfoldable pub rooted : Text → Bool
rooted [] = false
rooted (c ∷ s) = c == 47 || c == 92

unfoldable pub resolved_manifest : Text → Text → Text
unfolding rooted
resolved_manifest page url =
    let path =
      if is_http_url url
      then url
      else if rooted url
      then normalize_relative_url_path url
      else join_url_path page url in
    if is_empty_text path then join_url_path page version_dat else path

-- Whether the configuration is accepted or refused, or an exception leaves the function.
pub data Ending : Type 0 where
  accepted refused threw : Ending

set_stun : List Text → Resolution → Resolution
set_stun [] c = c
set_stun (s ∷ servers) c = record c { stun_servers = merge_unique (s ∷ servers) c.stun_servers }

unfoldable pub set_token : P2pJson → Resolution → Option Text → Resolution × Ending
unfolding set_stun
set_token p c none = (c, threw)
set_token p c (some token) = (
  set_stun p.stun_servers (record c {
    signal_token = if is_empty_text c.signal_token then trim_ascii token else c.signal_token;
  }),
  accepted,
)

unfoldable pub set_endpoint : P2pJson → Resolution → Option Text → Resolution × Ending
unfolding set_token
set_endpoint p c none = (c, threw)
set_endpoint p c (some url) =
    set_token p
      (record c {
        signal_endpoint =
            if is_empty_text c.signal_endpoint then trim_ascii url else c.signal_endpoint;
      })
      p.signal_auth_token

unfoldable pub apply_p2p : Option P2pJson → Resolution → Resolution × Ending
unfolding set_endpoint
apply_p2p none c = (c, accepted)
apply_p2p (some p) c = set_endpoint p c p.signal_url
