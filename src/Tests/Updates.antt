-- ===== src/Tests/Updates.antt =====
-- A bootstrap configuration, the update of a file, a base package, and a manifest in hexadecimal digits.
use reborn_launcher.P2p.{begins_with}
use reborn_launcher.Paths.{trim_ascii}
use reborn_launcher.Base.{
  ◌≡◌, refl, true, false, Bool, List, [], ◌∷◌, Option, none, some, Text, arith, ℕ, ◌==◌,
}
use reborn_launcher.Deferred.{is_empty_text}
use reborn_launcher.Sync.{VersionConfig}
use reborn_launcher.Hex.{hex_digits, bytes_to_hex_lower}
use reborn_launcher.Archive.Extract.{Archive}
use reborn_launcher.P2p.Endpoint.{Result, returns}
use reborn_launcher.Bootstrap.{
  accepted, base_packages, update_root, of_root, is_http_url, manifest_url, Content, Root,
  Resolution,
}
use reborn_launcher.Bootstrap.Apply.{apply_bootstrap_root}
use reborn_launcher.Bootstrap.Resolved.{IsApplied, apply_bootstrap_root-IsApplied}
use reborn_launcher.Update.{Offer, update_runtime_files, download_base_package}
use reborn_launcher.Update.Done.{
  UpdateOutcome, update_runtime_files-UpdateOutcome, IsUnpacked, download_base_package-IsUnpacked,
}
use reborn_launcher.Manifest.{decode_bytes, decode_manifest}
use reborn_launcher.Manifest.Formats.{decode_manifest-hex}

-- The manifest "m" below the directory "d" of the host that is known, and the package "p".
abbrev content : Content
content = record {
  version_manifest_url = some (109 ∷ []);
  version_dat_url = some [];
  update_package_root_url = some (100 ∷ []);
  runtime_root_url = some [];
  update_root_url = some [];
  base_package_urls = [];
  base_package_url = some (112 ∷ []);
}

abbrev root : Root
root = record { local_only = []; content = none; download = some content; p2p = none }

abbrev known_host : Resolution
known_host = record {
  url = 104 ∷ [];
  page = [];
  manifest_path = [];
  package_urls = [];
  local_files = [];
  signal_endpoint = [];
  signal_token = [];
  stun_servers = [];
}

abbrev no_url : Text → Result (Option (Text × Text))
no_url url = returns none

abbrev as_is : Text → Option Text
as_is s = some s

apply_bootstrap_root-IsApplied_example :
    IsApplied root known_host (apply_bootstrap_root no_url as_is root known_host)
apply_bootstrap_root-IsApplied_example = apply_bootstrap_root-IsApplied no_url as_is root known_host

is_accepted : (apply_bootstrap_root no_url as_is root known_host).1 ≡ accepted
unfolding apply_bootstrap_root is_empty_text manifest_url trim_ascii is_http_url begins_with of_root
    update_root base_packages reborn_launcher.Bootstrap.apply_p2p
is_accepted = refl

abbrev files : List (Text × VersionConfig)
files = (97 ∷ [], record { page = 97 ∷ []; md5 = []; time = 1; size = 5 }) ∷ []

abbrev fetch : Text → Text → Bool
fetch url path = true

abbrev skips : Text → Bool
skips path = false

abbrev no_digits : ℕ → Text
no_digits n = []

update_runtime_files-UpdateOutcome_example :
    UpdateOutcome no_digits fetch skips [] files
      ((97 ∷ []) ∷ [])
      (update_runtime_files no_digits fetch skips [] files ((97 ∷ []) ∷ []))
update_runtime_files-UpdateOutcome_example =
    update_runtime_files-UpdateOutcome no_digits fetch skips [] files ((97 ∷ []) ∷ [])

abbrev broken : Archive
broken = record { opens = false; entries = []; headers_end = false }

abbrev offers : Text → Text → Offer
offers url path = record {
  by_p2p = true;
  p2p_ok = true;
  p2p_archive = broken;
  http_ok = false;
  http_archive = broken;
}

abbrev unpack : Archive → Option Bool
unpack a = some true

download_base_package-IsUnpacked_example :
    IsUnpacked unpack offers []
      ((112 ∷ []) ∷ [])
      (download_base_package unpack offers [] ((112 ∷ []) ∷ []))
download_base_package-IsUnpacked_example =
    download_base_package-IsUnpacked unpack offers [] ((112 ∷ []) ∷ [])

-- The text "{}" is an object, and nothing decompresses.
abbrev braces : Text
braces = 123 ∷ 125 ∷ []

abbrev starts_object : Text → Bool
starts_object [] = false
starts_object (c ∷ s) = c == 123

abbrev no_text : Text → Text
no_text s = []

abbrev in_hex : Text
in_hex = 55 ∷ 98 ∷ 10 ∷ 55 ∷ 100 ∷ []

in_hex-digits : hex_digits in_hex ≡ bytes_to_hex_lower braces
unfolding bytes_to_hex_lower hex_digits
in_hex-digits = refl

in_hex-no_json : decode_bytes starts_object no_text in_hex ≡ none
unfolding decode_bytes is_empty_text
in_hex-no_json = refl

braces-json : decode_bytes starts_object no_text braces ≡ some (braces, braces)
unfolding decode_bytes
braces-json = refl

braces-filled : is_empty_text braces ≡ false
unfolding is_empty_text
braces-filled = refl

decode_manifest-hex_example :
    (decode_manifest starts_object no_text braces ≡ some (braces, braces))
    × (decode_manifest starts_object no_text in_hex ≡ some (braces, braces))
decode_manifest-hex_example =
    decode_manifest-hex starts_object no_text braces in_hex braces (omega arith, (omega arith, tt))
      braces-filled in_hex-digits in_hex-no_json braces-json braces-filled
