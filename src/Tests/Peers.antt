-- ===== src/Tests/Peers.antt =====
-- A download from a peer, and lists of servers.
use reborn_launcher.Lines.{trim_blanks, getlines}
use reborn_launcher.Base.{
  text_eq, ◌≡◌, refl, true, false, List, [], ◌∷◌, Option, none, some, Text, All, map, arith, ℕ,
}
use reborn_launcher.Deferred.{lower_char, to_lower_ascii, member, is_empty_text}
use reborn_launcher.Percent.{url_encode}
use reborn_launcher.Percent.RoundTrip.{percent_decode, percent_decode-url_encode, MayStand}
use reborn_launcher.P2p.{begins_with, Reply}
use reborn_launcher.P2p.Endpoint.{Settings, Groups}
use reborn_launcher.Stun.{
  parse_stun_server_list, build_merged_stun_servers, load_stun_servers, saved_stun_servers,
  default_if_none, filled_texts,
}
use reborn_launcher.Stun.Lists.{
  AreServers, parse_stun_server_list-AreServers, IsMerged, build_merged_stun_servers-IsMerged,
}
use reborn_launcher.Stun.Saved.{IsSavable, load-saved_stun_servers}

-- "a ?".
abbrev asked : Text
asked = 97 ∷ 32 ∷ 63 ∷ []

percent_decode-url_encode_example :
    (percent_decode (url_encode asked) ≡ asked) × All MayStand (url_encode asked)
percent_decode-url_encode_example =
    percent_decode-url_encode asked (omega arith, (omega arith, (omega arith, tt)))

-- "http" at "h".
abbrev endpoint : Groups
endpoint = record { scheme = 104 ∷ 116 ∷ 116 ∷ 112 ∷ []; host = 104 ∷ []; port = none; path = [] }

abbrev settings : Settings
settings = record {
  enabled = true;
  stun_servers = [];
  signal_endpoint = 104 ∷ [];
  signal_auth_token = [];
}

abbrev reply : Reply
reply = record {
  opens = true;
  blocks = (7 ∷ 8 ∷ []) ∷ (9 ∷ []) ∷ [];
  stored = 7 ∷ 8 ∷ 9 ∷ [];
  status = some 200;
  content_type = [];
  content_length = some 3;
  removed = true;
  renamed = false;
  copied = true;
  copy_left = none;
}

abbrev no_number : Text → Option ℕ
no_number digits = none

-- "h, h;TURN:i".
abbrev listed : Text
listed = 104 ∷ 44 ∷ 32 ∷ 104 ∷ 59 ∷ 84 ∷ 85 ∷ 82 ∷ 78 ∷ 58 ∷ 105 ∷ []

parse_stun_server_list-AreServers_example : AreServers (parse_stun_server_list listed)
parse_stun_server_list-AreServers_example = parse_stun_server_list-AreServers listed

listed_servers :
    parse_stun_server_list listed
    ≡ (115 ∷ 116 ∷ 117 ∷ 110 ∷ 58 ∷ 104 ∷ []) ∷ (84 ∷ 85 ∷ 82 ∷ 78 ∷ 58 ∷ 105 ∷ []) ∷ []
unfolding parse_stun_server_list getlines is_empty_text trim_blanks member text_eq begins_with
    to_lower_ascii lower_char
listed_servers = refl

abbrev as_is : Text → Text
as_is s = s

build_merged_stun_servers-IsMerged_example :
    IsMerged
      (parse_stun_server_list listed)
      (default_if_none as_is (filled_texts (map as_is (asked ∷ []))))
      (build_merged_stun_servers as_is (asked ∷ []) listed)
build_merged_stun_servers-IsMerged_example =
    build_merged_stun_servers-IsMerged as_is (asked ∷ []) listed

-- "h?" and "i".
abbrev saved : List Text
saved = (104 ∷ 63 ∷ []) ∷ (105 ∷ []) ∷ []

saved-IsSavable : All (IsSavable as_is as_is) saved
unfolding trim_blanks is_empty_text
saved-IsSavable = ((refl, (refl, (refl, tt)), refl, refl), ((refl, (refl, tt), refl, refl), tt))

load-saved_stun_servers_example :
    load_stun_servers as_is (some (saved_stun_servers as_is saved)) ≡ saved
load-saved_stun_servers_example =
    load-saved_stun_servers as_is as_is (104 ∷ 63 ∷ []) ((105 ∷ []) ∷ []) saved-IsSavable
