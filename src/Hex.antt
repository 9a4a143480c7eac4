-- ===== src/Hex.antt =====
-- Bytes as hexadecimal text: `BytesToHexLower` of UpdateForge/UpdateForge.cpp, which publishes the
-- bootstrap payload, and `HexBodyToBytes` of RebornLauncher/NetUtils.cpp, which reads it.
pub mod RoundTrip
use reborn_launcher.Base.{
  ℕ, ◌+◌, ◌-◌, ◌*◌, ◌/◌, ◌%◌, Bool, true, false, ◌&&◌, ◌||◌, List, [], ◌∷◌, Option, none, some, ltb,
  leb, if◌then◌else◌, Text,
}
use reborn_launcher.Deferred.{is_empty_text}

-- `kHex[n]`.
unfoldable pub hex_digit : ℕ → ℕ
hex_digit n = if ltb n 10 then n + 48 else n + 87

unfoldable pub bytes_to_hex_lower : Text → Text
unfolding hex_digit
bytes_to_hex_lower [] = []
bytes_to_hex_lower (b ∷ bs) = hex_digit (b / 16) ∷ hex_digit (b % 16) ∷ bytes_to_hex_lower bs

-- `std::isxdigit` in the "C" locale.
unfoldable pub is_hex_digit : ℕ → Bool
is_hex_digit c = (leb 48 c && leb c 57) || (leb 65 c && leb c 70) || (leb 97 c && leb c 102)

-- What `strtol` in base 16 makes of such a character.
unfoldable pub hex_value : ℕ → ℕ
hex_value c = if leb c 57 then c - 48 else if leb c 70 then c - 55 else c - 87

unfoldable pub hex_digits : Text → Text
unfolding is_hex_digit
hex_digits [] = []
hex_digits (c ∷ s) = let rest = hex_digits s in if is_hex_digit c then c ∷ rest else rest

abbrev put_byte : ℕ → Option Text → Option Text
put_byte b none = none
put_byte b (some bs) = some (b ∷ bs)

-- The loop over the pairs; `none`: one digit is left over.
unfoldable pub decode_pairs : Text → Option Text
unfolding hex_value
decode_pairs [] = some []
decode_pairs (c ∷ []) = none
decode_pairs (c ∷ d ∷ s) = put_byte ((hex_value c * 16 + hex_value d) % 256) (decode_pairs s)

-- `HexBodyToBytes`.
unfoldable pub hex_body_to_bytes : Text → Option Text
unfolding hex_digits decode_pairs
hex_body_to_bytes body =
    if is_empty_text (hex_digits body) then none else decode_pairs (hex_digits body)
