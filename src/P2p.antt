-- ===== src/P2p.antt =====
-- Downloads from peers by way of the signaling server (RebornLauncher/P2PClient.cpp). The HTTP client
-- and the file system are parameters: `Reply` is what they answer for one candidate path. `matches`
-- stands for the regular expression of endpoints, `stoi` for std::stoi.
pub mod Endpoint
pub mod Fetched
use reborn_launcher.Base.{
  ℕ, ◌+◌, ◌%◌, Bool, true, false, not, ◌&&◌, ◌||◌, List, [], ◌∷◌, ◌++◌, Option, none, some, map,
  ◌==◌, if◌then◌else◌, text_eq, Text, u64_mod, length,
}
use reborn_launcher.Deferred.{member, is_empty_text, to_lower_ascii}
use reborn_launcher.Paths.{slash}
use reborn_launcher.Urls.{with_slash, close_slash, normalize_relative_url_path}
use reborn_launcher.Percent.{url_encode}

-- "/signal".
abbrev pub signal_path : Text
signal_path = 47 ∷ 115 ∷ 105 ∷ 103 ∷ 110 ∷ 97 ∷ 108 ∷ []

-- `NormalizeRelativePath`.
unfoldable pub normalize_relative_path : Text → Text
unfolding with_slash slash
normalize_relative_path path = with_slash (map slash path)

-- `NormalizeEndpointPath`.
unfoldable pub normalize_endpoint_path : Text → Text
unfolding with_slash slash
normalize_endpoint_path path =
    if is_empty_text path then signal_path else with_slash (map slash path)

unfoldable pub has_char : ℕ → Text → Bool
has_char c [] = false
has_char c (d ∷ s) = d == c || has_char c s

-- `BuildQueryPath`.
unfoldable pub build_query_path : Text → Text → Text → Text
unfolding has_char
build_query_path base key value =
    base ++ ((if has_char 63 base then 38 else 63) ∷ (key ++ (61 ∷ url_encode value)))

-- `PushUnique`.
unfoldable pub push_unique : List Text → Text → List Text
push_unique out value = if member value out then out else out ++ value ∷ []

-- The relative path without its leading '/'.
unfoldable pub without_slash : Text → Text
without_slash [] = []
without_slash (c ∷ s) = if c == 47 then s else c ∷ s

-- The candidates for one endpoint path: "url", "path", "page", and appended.
unfoldable pub push_candidates : Text → List Text → Text → List Text
unfolding push_unique build_query_path close_slash
push_candidates relative out base =
    let url = push_unique out (build_query_path base (117 ∷ 114 ∷ 108 ∷ []) relative) in
    let path = push_unique url (build_query_path base (112 ∷ 97 ∷ 116 ∷ 104 ∷ []) relative) in
    let page = push_unique path (build_query_path base (112 ∷ 97 ∷ 103 ∷ 101 ∷ []) relative) in
    push_unique page (close_slash base ++ url_encode relative)

-- `BuildCandidatePaths`.
unfoldable pub build_candidate_paths : Text → Text → List Text
unfolding push_candidates normalize_endpoint_path without_slash
build_candidate_paths endpoint relative =
    let base = normalize_endpoint_path endpoint in
    let first = push_candidates (without_slash relative) [] base in
    if text_eq base signal_path
    then first
    else push_candidates (without_slash relative) first signal_path

unfoldable pub begins_with : Text → Text → Bool
begins_with [] s = true
begins_with (p ∷ prefix) [] = false
begins_with (p ∷ prefix) (c ∷ s) = p == c && begins_with prefix s

unfoldable pub contains : Text → Text → Bool
contains sub [] = is_empty_text sub
contains sub (c ∷ s) = begins_with sub (c ∷ s) || contains sub s

-- "application/json" and "text/json".
abbrev pub application_json : Text
application_json =
    97 ∷ 112 ∷ 112 ∷ 108 ∷ 105 ∷ 99 ∷ 97 ∷ 116 ∷ 105 ∷ 111 ∷ 110 ∷ 47 ∷ 106 ∷ 115 ∷ 111 ∷ 110 ∷ []

abbrev pub text_json : Text
text_json = 116 ∷ 101 ∷ 120 ∷ 116 ∷ 47 ∷ 106 ∷ 115 ∷ 111 ∷ 110 ∷ []

-- `IsSignalingJsonResponse`, of the "Content-Type" header.
unfoldable pub is_signaling_json : Text → Bool
unfolding contains
is_signaling_json content_type =
    let lower = to_lower_ascii content_type in
    contains application_json lower || contains text_json lower

-- What the client and the file system answer for a candidate: whether the temporary file opens, the
-- blocks that arrive and what the file holds of them, the status (`none`: the request failed), the
-- headers (`content_length`: `none` if absent or std::stoull throws), and how the replacement goes:
-- whether the old target is removed, the rename and the copy succeed, and what a copy that fails
-- leaves behind (`none`: what was there).
pub record Reply : Type 0 where
  pub opens : Bool
  pub blocks : List Text
  pub stored : Text
  pub status : Option ℕ
  pub content_type : Text
  pub content_length : Option ℕ
  pub removed : Bool
  pub renamed : Bool
  pub copied : Bool
  pub copy_left : Option Text

unfoldable pub received_bytes : ℕ → List Text → ℕ
received_bytes n [] = n
received_bytes n (block ∷ blocks) = received_bytes ((n + length block) % u64_mod) blocks

-- The calls of `onProgress` while blocks arrive: `total` is still 0.
unfoldable pub reported : ℕ → List Text → List (ℕ × ℕ)
reported n [] = []
reported n (block ∷ blocks) =
    let sum = (n + length block) % u64_mod in (sum, 0) ∷ reported sum blocks

unfoldable pub status_ok : Option ℕ → Bool
status_ok none = false
status_ok (some status) = status == 200 || status == 206

-- The tests that a reply passes before the target is replaced.
unfoldable pub is_taken : Reply → Bool
unfolding status_ok is_signaling_json received_bytes
is_taken r =
    status_ok r.status
    && not (is_signaling_json r.content_type)
    && not (received_bytes 0 r.blocks == 0)

left_by_copy : Option Text → Option Text → Option Text
left_by_copy there none = there
left_by_copy there (some part) = some part

-- `ReplaceFile`: what it returns, and the target after it.
unfoldable pub replace_file : Reply → Option Text → Bool × Option Text
unfolding left_by_copy
replace_file r target =
    let there = if r.removed then none else target in
    if r.renamed || r.copied then (true, some r.stored) else (false, left_by_copy there r.copy_left)

-- What the loop returns, the target, and the calls of `onProgress`.
pub record Run : Type 0 where
  pub ok : Bool
  pub target : Option Text
  pub progress : List (ℕ × ℕ)

unfoldable pub after_reports : List (ℕ × ℕ) → Run → Run
after_reports calls run = record run { progress = calls ++ run.progress }

total_of : ℕ → Option ℕ → ℕ
total_of downloaded none = downloaded
total_of downloaded (some n) = n % u64_mod

-- The loop over the candidates.
unfoldable pub try_candidates : (Text → Reply) → Option Text → List Text → Run
unfolding is_taken replace_file reported after_reports received_bytes total_of
try_candidates answers target [] = record { ok = false; target = target; progress = [] }
try_candidates answers target (candidate ∷ candidates) =
    let r = answers candidate in
    let (done, replaced) = replace_file r target in
    let downloaded = received_bytes 0 r.blocks in
    let skipped = try_candidates answers target candidates in
    let failed = try_candidates answers replaced candidates in
    if not r.opens
    then record { ok = false; target = target; progress = [] }
    else after_reports (reported 0 r.blocks) (
        if not (is_taken r) then skipped else if not done then failed else record {
          ok = true;
          target = replaced;
          progress = (downloaded, total_of downloaded r.content_length) ∷ [];
        })
