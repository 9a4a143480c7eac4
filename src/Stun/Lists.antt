-- ===== src/Stun/Lists.antt =====
-- What the lists of STUN servers of RebornLauncher/LauncherP2PConfig.cpp hold.
use reborn_launcher.Base.{
  ◌≡◌, refl, ◌⊎◌, inl, inr, true, false, ◌||◌, List, [], ◌∷◌, ◌++◌, map, if-cases, Text, All,
  All-append, arith,
}
use reborn_launcher.Deferred.{member, is_empty_text, to_lower_ascii, lower_char}
use reborn_launcher.Deferred.Keys.{IsDistinct, append-IsDistinct}
use reborn_launcher.Urls.{merge_unique}
use reborn_launcher.Urls.Joins.{merge_unique_lem}
use reborn_launcher.P2p.{begins_with}
use reborn_launcher.Lines.{getlines, trim_blanks}
use reborn_launcher.Stun.{
  parse_stun_server_list, add_servers, add_server, stun_value, has_scheme, stun_prefix,
  build_merged_stun_servers, merged_with, default_if_none, filled_texts, merge_unique_keep_order,
  list_separator,
}

-- A server without doubles, and each with its scheme.
abbrev pub AreServers : List Text → Type 0
AreServers servers = IsDistinct servers × All (λ s. has_scheme s ≡ true) servers

begins_with-prefix : (s : Text) → begins_with stun_prefix (to_lower_ascii (stun_prefix ++ s)) ≡ true
unfolding begins_with to_lower_ascii lower_char
begins_with-prefix s = refl

stun_value-has_scheme : (value : Text) → has_scheme (stun_value value) ≡ true
unfolding stun_value has_scheme
stun_value-has_scheme value =
    if-cases (λ v. has_scheme v ≡ true) (has_scheme value) value (stun_prefix ++ value) (λ h. h)
      (λ _. rw (begins_with-prefix value) refl)

add_server-AreServers :
    (result : List Text) (line : Text) → AreServers result → AreServers (add_server result line)
unfolding add_server
add_server-AreServers result line (d, all) =
    let value = stun_value (trim_blanks line) in
    if-cases AreServers (is_empty_text (trim_blanks line)) _ _ (λ _. (d, all))
      (λ _.
        if-cases AreServers (member value result) _ _ (λ _. (d, all))
          (λ new. (
            append-IsDistinct value result d new,
            All-append (λ s. has_scheme s ≡ true) result (value ∷ []) all
                (stun_value-has_scheme (trim_blanks line), tt),
          )))

add_servers-AreServers :
    (lines result : List Text) → AreServers result → AreServers (add_servers result lines)
unfolding add_servers
add_servers-AreServers [] result h = h
add_servers-AreServers (line ∷ lines) result h =
    add_servers-AreServers lines (add_server result line) (add_server-AreServers result line h)

-- The list that is parsed out of any text has no doubles, and each of its servers begins with "stun:"
-- or "turn:", in any case of letters.
pub parse_stun_server_list-AreServers : (raw : Text) → AreServers (parse_stun_server_list raw)
unfolding parse_stun_server_list
parse_stun_server_list-AreServers raw =
    add_servers-AreServers (getlines (map list_separator raw)) [] (tt, tt)

abbrev pub IsMerged : List Text → List Text → List Text → Type 0
IsMerged env ui merged =
    ((env ≡ []) ⊎ IsDistinct merged)
    × ((k : Text) → is_empty_text k ≡ false → member k merged ≡ (member k env || member k ui))

merged_with-IsMerged : (ui env : List Text) → IsMerged env ui (merged_with ui env)
unfolding merged_with merge_unique_keep_order member
merged_with-IsMerged ui [] = (inl refl, λ k named. refl)
merged_with-IsMerged ui (s ∷ env) =
    let (env_distinct, env_members) = merge_unique_lem [] (s ∷ env) tt in
    let (distinct, members) = merge_unique_lem (merge_unique [] (s ∷ env)) ui env_distinct in
    (inr distinct, λ k named. ground (arith, members k named, env_members k named))

-- The servers that are used are, but for empty texts, those of the environment and those of the user
-- interface, the default ones where it has none; and there are no doubles among them unless the
-- environment names no server.
pub build_merged_stun_servers-IsMerged :
    (to_utf8 : Text → Text) (ui_servers : List Text) (env : Text)
    → let ui = default_if_none to_utf8 (filled_texts (map to_utf8 ui_servers)) in
      IsMerged (parse_stun_server_list env) ui (build_merged_stun_servers to_utf8 ui_servers env)
unfolding build_merged_stun_servers
build_merged_stun_servers-IsMerged to_utf8 ui_servers env =
    merged_with-IsMerged (default_if_none to_utf8 (filled_texts (map to_utf8 ui_servers)))
      (parse_stun_server_list env)
