-- ===== src/Tests/Codes.antt =====
-- A body in hexadecimal digits (NetUtils.cpp, UpdateForge.cpp).
use reborn_launcher.Base.{◌≡◌, refl, [], ◌∷◌, some, arith, Text}
use reborn_launcher.Deferred.{is_empty_text}
use reborn_launcher.Hex.{hex_digits, bytes_to_hex_lower, hex_body_to_bytes}
use reborn_launcher.Hex.RoundTrip.{hex_round_trip}

abbrev two_bytes : Text
two_bytes = 255 ∷ 10 ∷ []

-- "ff 0a", with a line break.
abbrev spaced : Text
spaced = 102 ∷ 102 ∷ 32 ∷ 48 ∷ 97 ∷ 10 ∷ []

spaced_digits : hex_digits spaced ≡ bytes_to_hex_lower two_bytes
unfolding hex_digits bytes_to_hex_lower
spaced_digits = refl

hex_round_trip_example :
    (hex_body_to_bytes spaced ≡ some two_bytes)
    × (hex_body_to_bytes (bytes_to_hex_lower two_bytes) ≡ some two_bytes)
unfolding is_empty_text
hex_round_trip_example = hex_round_trip two_bytes spaced (omega arith) refl spaced_digits
