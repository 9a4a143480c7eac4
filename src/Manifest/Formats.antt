-- ===== src/Manifest/Formats.antt =====
-- The formats of the version manifest (RebornLauncher/Manifest.cpp, NetUtils.cpp).
use reborn_launcher.Base.{◌<◌, ◌≡◌, refl, Bool, false, none, some, Text, All}
use reborn_launcher.Deferred.{is_empty_text}
use reborn_launcher.Hex.{hex_digits, bytes_to_hex_lower}
use reborn_launcher.Hex.RoundTrip.{hex_round_trip}
use reborn_launcher.Manifest.{decode_bytes, by_hex, or_hex, filled_text, decode_manifest}

-- A manifest that is decoded as it is, as JSON text or compressed, is decoded to the same bytes and
-- text when its bytes, at least one, are sent as hexadecimal digits, also with other characters
-- between them; provided that those digits are themselves neither JSON nor compressed JSON, and that
-- the text of the manifest is not empty.
pub decode_manifest-hex :
    (is_object : Text → Bool) (decrypt : Text → Text) (bytes body text : Text)
    → All (λ b. b < 256) bytes
    → is_empty_text bytes ≡ false
    → hex_digits body ≡ bytes_to_hex_lower bytes
    → decode_bytes is_object decrypt body ≡ none
    → decode_bytes is_object decrypt bytes ≡ some (bytes, text)
    → is_empty_text text ≡ false
    → (decode_manifest is_object decrypt bytes ≡ some (bytes, text))
      × (decode_manifest is_object decrypt body ≡ some (bytes, text))
unfolding decode_manifest by_hex or_hex filled_text
decode_manifest-hex is_object decrypt bytes body text small filled digits no_json json some_text =
    let (decoded, _) = hex_round_trip bytes body small filled digits in
    (rw (json, some_text) refl, rw (no_json, decoded, json, some_text) refl)
