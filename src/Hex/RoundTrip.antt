-- ===== src/Hex/RoundTrip.antt =====
-- The launcher reads what UpdateForge writes (NetUtils.cpp, UpdateForge.cpp).
use reborn_launcher.Base.{
  ℕ, ◌+◌, ◌*◌, ◌/◌, ◌%◌, ◌<◌, ◌≡◌, refl, ap, true, false, [], ◌∷◌, some, arith, All, Text,
}
use reborn_launcher.Deferred.{is_empty_text}
use reborn_launcher.Hex.{
  hex_digit, bytes_to_hex_lower, is_hex_digit, hex_value, hex_digits, decode_pairs,
  hex_body_to_bytes,
}

hex_digit-is_hex_digit : (n : ℕ) → n < 16 → is_hex_digit (hex_digit n) ≡ true
unfolding is_hex_digit hex_digit
hex_digit-is_hex_digit n h = ground arith

hex_value-hex_digit : (n : ℕ) → n < 16 → hex_value (hex_digit n) ≡ n
unfolding hex_value hex_digit
hex_value-hex_digit n h = ground arith

hex_digits-bytes :
    (bs : Text) → All (λ b. b < 256) bs → hex_digits (bytes_to_hex_lower bs) ≡ bytes_to_hex_lower bs
unfolding hex_digits bytes_to_hex_lower
hex_digits-bytes [] h = refl
hex_digits-bytes (b ∷ bs) (small, h) =
    let high = hex_digit-is_hex_digit (b / 16) (omega arith) in
    let low = hex_digit-is_hex_digit (b % 16) (omega arith) in
    rw (high, low) (ap (λ s. hex_digit (b / 16) ∷ hex_digit (b % 16) ∷ s) (hex_digits-bytes bs h))

decode_pairs-bytes :
    (bs : Text) → All (λ b. b < 256) bs → decode_pairs (bytes_to_hex_lower bs) ≡ some bs
unfolding decode_pairs bytes_to_hex_lower
decode_pairs-bytes [] h = refl
decode_pairs-bytes (b ∷ bs) (small, h) =
    let high = hex_value-hex_digit (b / 16) (omega arith) in
    let low = hex_value-hex_digit (b % 16) (omega arith) in
    let whole : ((b / 16) * 16 + b % 16) % 256 ≡ b = omega arith in
    rw (decode_pairs-bytes bs h, high, low, whole) refl

bytes-filled :
    (bs : Text) → is_empty_text bs ≡ false → is_empty_text (bytes_to_hex_lower bs) ≡ false
unfolding is_empty_text bytes_to_hex_lower
bytes-filled [] h = h
bytes-filled (b ∷ bs) h = refl

-- The launcher decodes what UpdateForge encodes: bytes, at least one, come back as they were, also
-- from a body in which other characters than hexadecimal digits stand between those of the encoding.
pub hex_round_trip :
    (bs body : Text)
    → All (λ b. b < 256) bs
    → is_empty_text bs ≡ false
    → hex_digits body ≡ bytes_to_hex_lower bs
    → (hex_body_to_bytes body ≡ some bs) × (hex_body_to_bytes (bytes_to_hex_lower bs) ≡ some bs)
unfolding hex_body_to_bytes
hex_round_trip bs body small filled same =
    let plain = hex_digits-bytes bs small in
    let there : is_empty_text (bytes_to_hex_lower bs) ≡ false = bytes-filled bs filled in
    (
      rw (same, there) (decode_pairs-bytes bs small),
      rw (plain, there) (decode_pairs-bytes bs small),
    )
