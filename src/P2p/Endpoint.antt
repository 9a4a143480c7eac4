-- ===== src/P2p/Endpoint.antt =====
-- `ParseEndpoint` and `TryDownload` of RebornLauncher/P2PClient.cpp. `tls`: whether the build has
-- CPPHTTPLIB_OPENSSL_SUPPORT.
use reborn_launcher.Base.{
  ℕ, Bool, false, not, ◌&&◌, ◌||◌, List, [], ◌∷◌, Option, none, some, if◌then◌else◌, text_eq, Text,
}
use reborn_launcher.Deferred.{is_empty_text}
use reborn_launcher.Urls.{with_slash}
use reborn_launcher.P2p.{
  signal_path, normalize_relative_path, build_candidate_paths, Reply, Run, try_candidates,
}

-- `P2PSettings`.
pub record Settings : Type 0 where
  pub enabled : Bool
  pub stun_servers : List Text
  pub signal_endpoint : Text
  pub signal_auth_token : Text

-- The groups of the expression `(https?)://([^/:]+)(?::(\d+))?(.*)`.
pub record Groups : Type 0 where
  pub scheme : Text
  pub host : Text
  pub port : Option Text
  pub path : Text

-- `ParsedEndpoint`.
pub record Endpoint : Type 0 where
  pub use_tls : Bool
  pub host : Text
  pub port : ℕ
  pub path : Text

-- What a function does that may throw.
pub data Result {ℓ} (A : Type ℓ) : Type ℓ where
  returns : A → Result A
  throws : Result A

-- The port of the groups, by std::stoi (`none`: it throws).
unfoldable pub parse_port : (Text → Option ℕ) → Bool → Option Text → Option ℕ
parse_port stoi use_tls none = some (if use_tls then 443 else 80)
parse_port stoi use_tls (some digits) = stoi digits

unfoldable pub with_port : Groups → Bool → Option ℕ → Result (Option Endpoint)
with_port g use_tls none = throws
with_port g use_tls (some port) = returns (
    some (record {
      use_tls = use_tls;
      host = g.host;
      port = port;
      path = if is_empty_text g.path then signal_path else with_slash g.path;
    }))

unfoldable pub of_groups : (Text → Option ℕ) → Option Groups → Result (Option Endpoint)
unfolding parse_port with_port
of_groups stoi none = returns none
of_groups stoi (some g) =
    let use_tls = text_eq g.scheme (104 ∷ 116 ∷ 116 ∷ 112 ∷ 115 ∷ []) in
    with_port g use_tls (parse_port stoi use_tls g.port)

-- `ParseEndpoint`.
unfoldable pub parse_endpoint :
    (Text → Option Groups) → (Text → Option ℕ) → Text → Result (Option Endpoint)
unfolding of_groups
parse_endpoint matches stoi endpoint =
    if is_empty_text endpoint then returns none else of_groups stoi (matches endpoint)

unfoldable pub refused : Option Text → Run
refused target = record { ok = false; target = target; progress = [] }

unfoldable pub try_endpoint :
    Bool → (Text → Reply) → Text → Text → Option Text → Result (Option Endpoint) → Result Run
unfolding refused
try_endpoint tls answers url file_path target throws = throws
try_endpoint tls answers url file_path target (returns none) = returns (refused target)
try_endpoint tls answers url file_path target (returns (some endpoint)) =
    let relative = normalize_relative_path url in
    if is_empty_text relative || is_empty_text file_path || (endpoint.use_tls && not tls)
    then returns (refused target)
    else returns (try_candidates answers target (build_candidate_paths endpoint.path relative))

-- `TryDownload`, where `target` is what the file at `file_path` holds before.
unfoldable pub try_download :
    (Text → Option Groups)
    → (Text → Option ℕ)
    → Bool
    → (Text → Reply)
    → Settings
    → Text
    → Text
    → Option Text
    → Result Run
unfolding try_endpoint refused
try_download matches stoi tls answers settings url file_path target =
    if not settings.enabled || is_empty_text settings.signal_endpoint
    then returns (refused target)
    else try_endpoint tls answers url file_path target
        (parse_endpoint matches stoi settings.signal_endpoint)
