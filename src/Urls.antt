-- ===== src/Urls.antt =====
-- Paths in URLs, and lists of servers (RebornLauncher/NetUtils.cpp).
pub mod Joins
use reborn_launcher.Base.{
  ℕ, Bool, true, false, not, ◌&&◌, ◌||◌, List, [], ◌∷◌, ◌++◌, Option, none, some, map, ◌==◌,
  if◌then◌else◌, Text,
}
use reborn_launcher.Deferred.{member, is_empty_text}
use reborn_launcher.Paths.{slash, drop_slashes}

-- `if (path.front() != '/') path.insert(path.begin(), '/')`, on a text that is not empty.
unfoldable pub with_slash : Text → Text
with_slash [] = []
with_slash (c ∷ s) = if c == 47 then c ∷ s else 47 ∷ c ∷ s

-- `NormalizeRelativeUrlPath`.
unfoldable pub normalize_relative_url_path : Text → Text
unfolding with_slash slash
normalize_relative_url_path path = with_slash (map slash path)

-- `if (base.back() != '/') base.push_back('/')`.
unfoldable pub close_slash : Text → Text
close_slash [] = []
close_slash (c ∷ []) = if c == 47 then c ∷ [] else c ∷ 47 ∷ []
close_slash (c ∷ d ∷ s) = c ∷ close_slash (d ∷ s)

-- `JoinUrlPath`.
unfoldable pub join_url_path : Text → Text → Text
unfolding with_slash close_slash drop_slashes normalize_relative_url_path
join_url_path base child =
    if is_empty_text (map slash base)
    then normalize_relative_url_path (map slash child)
    else close_slash (with_slash (map slash base)) ++ drop_slashes (map slash child)

-- `MergeUnique`.
unfoldable pub merge_unique : List Text → List Text → List Text
unfolding member
merge_unique target [] = target
merge_unique target (item ∷ source) =
    if is_empty_text item
    then merge_unique target source
    else if member item target
    then merge_unique target source
    else merge_unique (target ++ item ∷ []) source
