-- ===== src/Stun.antt =====
-- The lists of STUN servers and the signaling settings (RebornLauncher/LauncherP2PConfig.cpp).
-- `to_utf8` and `to_wide` stand for `wstr2str` and `str2wstr`.
pub mod Lists
pub mod Saved
use reborn_launcher.Base.{
  ℕ, Bool, true, false, not, ◌&&◌, ◌||◌, List, [], ◌∷◌, ◌++◌, Option, none, some, map, ◌==◌,
  if◌then◌else◌, Text,
}
use reborn_launcher.Deferred.{member, is_empty_text, to_lower_ascii}
use reborn_launcher.Urls.{merge_unique}
use reborn_launcher.P2p.{begins_with}
use reborn_launcher.Lines.{getlines, trim_blanks}

-- `DefaultStunServersWideInternal`: "stun:stun.l.google.com:19302",
-- "stun:global.stun.twilio.com:3478" and "stun:stun.cloudflare.com:3478".
abbrev pub default_stun_servers : List Text
default_stun_servers =
    (115 ∷ 116 ∷ 117 ∷ 110 ∷ 58 ∷ 115 ∷ 116 ∷ 117 ∷ 110 ∷ 46 ∷ 108 ∷ 46 ∷ 103 ∷ 111 ∷ 111 ∷ 103
      ∷ 108 ∷ 101 ∷ 46 ∷ 99 ∷ 111 ∷ 109 ∷ 58 ∷ 49 ∷ 57 ∷ 51 ∷ 48 ∷ 50 ∷ [])
    ∷ (115 ∷ 116 ∷ 117 ∷ 110 ∷ 58 ∷ 103 ∷ 108 ∷ 111 ∷ 98 ∷ 97 ∷ 108 ∷ 46 ∷ 115 ∷ 116 ∷ 117 ∷ 110
        ∷ 46 ∷ 116 ∷ 119 ∷ 105 ∷ 108 ∷ 105 ∷ 111 ∷ 46 ∷ 99 ∷ 111 ∷ 109 ∷ 58 ∷ 51 ∷ 52 ∷ 55 ∷ 56
        ∷ [])
    ∷ (115 ∷ 116 ∷ 117 ∷ 110 ∷ 58 ∷ 115 ∷ 116 ∷ 117 ∷ 110 ∷ 46 ∷ 99 ∷ 108 ∷ 111 ∷ 117 ∷ 100 ∷ 102
        ∷ 108 ∷ 97 ∷ 114 ∷ 101 ∷ 46 ∷ 99 ∷ 111 ∷ 109 ∷ 58 ∷ 51 ∷ 52 ∷ 55 ∷ 56 ∷ [])
    ∷ []

-- "stun:" and "turn:".
abbrev pub stun_prefix : Text
stun_prefix = 115 ∷ 116 ∷ 117 ∷ 110 ∷ 58 ∷ []

abbrev pub turn_prefix : Text
turn_prefix = 116 ∷ 117 ∷ 114 ∷ 110 ∷ 58 ∷ []

-- `MergeUniqueKeepOrder`, the same loop as `MergeUnique` of NetUtils.cpp.
unfoldable pub merge_unique_keep_order : List Text → List Text → List Text
merge_unique_keep_order target source = merge_unique target source

unfoldable pub or_else_text : Text → Text → Text
or_else_text value other = if is_empty_text value then other else value

-- `ResolveByFileThenEnv`, of the content of the file and of the two variables (`none`: not there).
unfoldable pub trimmed : Option Text → Text
trimmed none = []
trimmed (some s) = trim_blanks s

unfoldable pub resolve_by_file_then_env : Option Text → Option Text → Option Text → Text
unfolding or_else_text trimmed
resolve_by_file_then_env file primary fallback =
    or_else_text (or_else_text (trimmed file) (trimmed primary)) (trimmed fallback)

-- ',', ';', '\r' and '\t' end a line.
unfoldable pub list_separator : ℕ → ℕ
list_separator c = if c == 44 || c == 59 || c == 13 || c == 9 then 10 else c

unfoldable pub has_scheme : Text → Bool
has_scheme value =
    let lower = to_lower_ascii value in
    begins_with stun_prefix lower || begins_with turn_prefix lower

unfoldable pub stun_value : Text → Text
unfolding has_scheme
stun_value value = if has_scheme value then value else stun_prefix ++ value

unfoldable pub add_server : List Text → Text → List Text
unfolding stun_value
add_server result line =
    let value = trim_blanks line in
    if is_empty_text value
    then result
    else if member (stun_value value) result
    then result
    else result ++ stun_value value ∷ []

unfoldable pub add_servers : List Text → List Text → List Text
unfolding add_server
add_servers result [] = result
add_servers result (line ∷ lines) = add_servers (add_server result line) lines

-- `ParseStunServerList`.
unfoldable pub parse_stun_server_list : Text → List Text
unfolding list_separator add_servers
parse_stun_server_list raw = add_servers [] (getlines (map list_separator raw))

unfoldable pub wide_lines : (Text → Text) → List Text → List Text
wide_lines to_wide [] = []
wide_lines to_wide (line ∷ lines) =
    let value = trim_blanks (to_wide line) in
    let rest = wide_lines to_wide lines in if is_empty_text value then rest else value ∷ rest

unfoldable pub or_default : List Text → List Text
or_default [] = default_stun_servers
or_default (s ∷ servers) = s ∷ servers

-- `LoadStunServersFromFile`, of what the file holds (`none`: it does not exist or does not open).
unfoldable pub load_stun_servers : (Text → Text) → Option Text → List Text
unfolding or_default wide_lines
load_stun_servers to_wide none = default_stun_servers
load_stun_servers to_wide (some content) = or_default (wide_lines to_wide (getlines content))

-- What `SaveStunServersToFile` writes.
unfoldable pub saved_stun_servers : (Text → Text) → List Text → Text
saved_stun_servers to_utf8 [] = []
saved_stun_servers to_utf8 (s ∷ servers) = to_utf8 s ++ 10 ∷ saved_stun_servers to_utf8 servers

unfoldable pub filled_texts : List Text → List Text
filled_texts [] = []
filled_texts (s ∷ texts) =
    let rest = filled_texts texts in if is_empty_text s then rest else s ∷ rest

unfoldable pub default_if_none : (Text → Text) → List Text → List Text
default_if_none to_utf8 [] = map to_utf8 default_stun_servers
default_if_none to_utf8 (s ∷ servers) = s ∷ servers

unfoldable pub merged_with : List Text → List Text → List Text
unfolding merge_unique_keep_order
merged_with from_ui [] = from_ui
merged_with from_ui (s ∷ from_env) =
    merge_unique_keep_order (merge_unique_keep_order [] (s ∷ from_env)) from_ui

-- `BuildMergedStunServers`.
unfoldable pub build_merged_stun_servers : (Text → Text) → List Text → Text → List Text
unfolding merged_with default_if_none filled_texts
build_merged_stun_servers to_utf8 ui_servers env =
    merged_with (default_if_none to_utf8 (filled_texts (map to_utf8 ui_servers)))
      (parse_stun_server_list env)
