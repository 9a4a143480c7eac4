-- ===== src/Manifest.antt =====
-- Fetching and decoding the version manifest: `RefreshRemoteVersionManifest` of
-- RebornLauncher/Manifest.cpp. `is_object` tells whether jsoncpp reads a text as an object, `decrypt`
-- is `DecryptVersionDat` (empty: it fails); a reply is the body of an answer with status 200, `none`
-- any other answer.
pub mod Formats
use reborn_launcher.Base.{
  ℕ, zero, suc, Bool, true, false, not, ◌&&◌, ◌||◌, List, [], ◌∷◌, Option, none, some,
  if◌then◌else◌, text_eq, Text,
}
use reborn_launcher.Deferred.{is_empty_text}
use reborn_launcher.Urls.{join_url_path}
use reborn_launcher.Hex.{hex_body_to_bytes}
use reborn_launcher.Bootstrap.{is_http_url, version_dat}
use reborn_launcher.Update.{file_name_from_url}

filled_body : Option Text → Option Text
filled_body none = none
filled_body (some body) = if is_empty_text body then none else some body

or_later : Option Text → Option Text → Option Text
or_later none later = later
or_later (some body) later = some body

-- `fetchManifestWithRetry`: the answers of the remaining attempts, up to the first that will do.
unfoldable pub fetch_with_retry : (ℕ → Option Text) → ℕ → Option Text
unfolding filled_body or_later
fetch_with_retry answers zero = none
fetch_with_retry answers (suc left) =
    or_later (filled_body (answers left)) (fetch_with_retry answers left)

fallback_path : Text → Text → Text
fallback_path page path =
    let name = file_name_from_url path in
    join_url_path page (if is_empty_text name then version_dat else name)

-- The body and the path of the manifest, with the fallback below the directory of downloads.
unfoldable pub fetch_manifest : (Text → ℕ → Option Text) → ℕ → Text → Text → Option (Text × Text)
unfolding fallback_path
fetch_manifest answers attempts page path = elim (fetch_with_retry (answers path) attempts) [
  | some body ↦ some (body, path)
  | none ↦
      let other = fallback_path page path in
      if is_http_url path || text_eq other path
      then none
      else elim (fetch_with_retry (answers other) attempts) [
        | some body ↦ some (body, other)
        | none ↦ none
      ]
]

-- A text or its decompression, with the bytes that are kept.
unfoldable pub decode_bytes : (Text → Bool) → (Text → Text) → Text → Option (Text × Text)
decode_bytes is_object decrypt binary =
    if is_object binary
    then some (binary, binary)
    else if not (is_empty_text (decrypt binary)) && is_object (decrypt binary)
    then some (binary, decrypt binary)
    else none

unfoldable pub by_hex : (Text → Bool) → (Text → Text) → Option Text → Option (Text × Text)
unfolding decode_bytes
by_hex is_object decrypt none = none
by_hex is_object decrypt (some decoded) = decode_bytes is_object decrypt decoded

unfoldable pub or_hex : Option (Text × Text) → Option (Text × Text) → Option (Text × Text)
or_hex none other = other
or_hex (some decoded) other = some decoded

unfoldable pub filled_text : Option (Text × Text) → Option (Text × Text)
filled_text none = none
filled_text (some (binary, text)) = if is_empty_text text then none else some (binary, text)

-- The bytes and the JSON text of a body; `none`: the format is not supported.
unfoldable pub decode_manifest : (Text → Bool) → (Text → Text) → Text → Option (Text × Text)
unfolding by_hex or_hex filled_text
decode_manifest is_object decrypt body = filled_text (
    or_hex (decode_bytes is_object decrypt body)
      (by_hex is_object decrypt (hex_body_to_bytes body)))
