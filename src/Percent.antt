-- ===== src/Percent.antt =====
-- Percent encoding: `UrlEncode` of RebornLauncher/P2PClient.cpp, and the function of that name in
-- `RequestDownloadFromLauncher` of CryptoLoader/dllmain.cpp, which has the same text.
pub mod RoundTrip
use reborn_launcher.Base.{
  ℕ, ◌+◌, ◌/◌, ◌%◌, Bool, ◌||◌, ◌&&◌, List, [], ◌∷◌, leb, ltb, ◌==◌, if◌then◌else◌, Text,
}

-- The characters that stand for themselves.
unfoldable pub is_unreserved : ℕ → Bool
is_unreserved c =
    (leb 65 c && leb c 90)
    || (leb 97 c && leb c 122)
    || (leb 48 c && leb c 57)
    || c == 45
    || c == 95
    || c == 46
    || c == 126
    || c == 47

-- `kHex`.
unfoldable pub upper_hex_digit : ℕ → ℕ
upper_hex_digit n = if ltb n 10 then n + 48 else n + 55

unfoldable pub url_encode : Text → Text
unfolding is_unreserved upper_hex_digit
url_encode [] = []
url_encode (c ∷ s) =
    let rest = url_encode s in
    if is_unreserved c
    then c ∷ rest
    else 37 ∷ upper_hex_digit (c / 16 % 16) ∷ upper_hex_digit (c % 16) ∷ rest
