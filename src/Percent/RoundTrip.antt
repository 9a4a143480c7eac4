-- ===== src/Percent/RoundTrip.antt =====
-- Percent encoding and the decoding of RFC 3986.
use reborn_launcher.Base.{
  ℕ, ◌+◌, ◌*◌, ◌/◌, ◌%◌, ◌<◌, ◌≡◌, refl, ap, true, false, ◌||◌, [], ◌∷◌, ◌==◌, if◌then◌else◌, Text,
  All, Bool-cases, inl, inr, arith,
}
use reborn_launcher.Hex.{hex_value}
use reborn_launcher.Percent.{is_unreserved, upper_hex_digit, url_encode}

-- What the decoder has read: nothing, a '%', or a '%' and a digit.
pub data Reading : Type 0 where
  plain : Reading
  escape : Reading
  digit : ℕ → Reading

unfoldable pub decode : Reading → Text → Text
unfolding hex_value
decode plain [] = []
decode plain (c ∷ s) =
    let escaped = decode escape s in
    let rest = decode plain s in if c == 37 then escaped else c ∷ rest
decode escape [] = []
decode escape (c ∷ s) = decode (digit c) s
decode (digit high) [] = []
decode (digit high) (c ∷ s) = (hex_value high * 16 + hex_value c) ∷ decode plain s

unfoldable pub percent_decode : Text → Text
percent_decode s = decode plain s

hex_value-upper : (n : ℕ) → n < 16 → hex_value (upper_hex_digit n) ≡ n
unfolding hex_value upper_hex_digit
hex_value-upper n h = ground arith

-- A character that may stand in the value of a query: none of the characters that end it.
abbrev pub MayStand : ℕ → Type 0
MayStand c = (is_unreserved c || c == 37) ≡ true

MayStand-digit : (n : ℕ) → n < 16 → MayStand (upper_hex_digit n)
unfolding is_unreserved upper_hex_digit
MayStand-digit n h = ground arith

keeps-apart : (c : ℕ) → is_unreserved c ≡ true → (c == 37) ≡ false
unfolding is_unreserved
keeps-apart c h = ground arith

-- Decoding an encoded list of bytes gives the bytes back, and the encoded text has only letters,
-- digits, '-', '_', '.', '~', '/' and '%'.
pub percent_decode-url_encode :
    (s : Text)
    → All (λ c. c < 256) s
    → (percent_decode (url_encode s) ≡ s) × All MayStand (url_encode s)
unfolding url_encode decode percent_decode
percent_decode-url_encode [] b = (refl, tt)
percent_decode-url_encode (c ∷ s) (byte, bs) =
    let (rest, stands) = percent_decode-url_encode s bs in
    let high = hex_value-upper (c / 16 % 16) (omega arith) in
    let low = hex_value-upper (c % 16) (omega arith) in
    elim (Bool-cases (is_unreserved c)) [
      | inl keeps ↦ simp keeps (rw (keeps-apart c keeps, rest) refl, (refl, stands))
      | inr escapes ↦ simp escapes (
        rw (high, low, rest) (ap (λ b. b ∷ s) (omega arith)),
        (
          refl,
          (
            MayStand-digit (c / 16 % 16) (omega arith),
            (MayStand-digit (c % 16) (omega arith), stands),
          ),
        ),
      )
    ]
