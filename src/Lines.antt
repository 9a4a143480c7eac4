-- ===== src/Lines.antt =====
-- The lines that std::getline reads, and trimming by a set of characters (the `TrimAscii` and
-- `TrimWide` of RebornLauncher/LauncherP2PConfig.cpp).
use reborn_launcher.Base.{
  ℕ, ◌≡◌, refl, Bool, false, ◌&&◌, ◌||◌, List, [], ◌∷◌, ◌++◌, ◌==◌, if◌then◌else◌, Text, All,
}
use reborn_launcher.Deferred.{is_empty_text}

unfoldable pub to_line : ℕ → List Text → List Text
to_line c [] = (c ∷ []) ∷ []
to_line c (line ∷ lines) = (c ∷ line) ∷ lines

-- The lines that repeated calls of std::getline give; a last one without '\n' counts unless empty.
unfoldable pub getlines : Text → List Text
unfolding to_line
getlines [] = []
getlines (c ∷ s) = let rest = getlines s in if c == 10 then [] ∷ rest else to_line c rest

-- The characters " \t\r\n".
unfoldable pub is_blank : ℕ → Bool
is_blank c = c == 32 || c == 9 || c == 13 || c == 10

drop_blanks : Text → Text
unfolding is_blank
drop_blanks [] = []
drop_blanks (c ∷ s) = let rest = drop_blanks s in if is_blank c then rest else c ∷ s

drop_last_blanks : Text → Text
unfolding is_blank
drop_last_blanks [] = []
drop_last_blanks (c ∷ s) =
    let rest = drop_last_blanks s in if is_blank c && is_empty_text rest then [] else c ∷ rest

-- `TrimAscii` and `TrimWide` of LauncherP2PConfig.cpp, on characters of either width.
unfoldable pub trim_blanks : Text → Text
unfolding drop_blanks drop_last_blanks
trim_blanks s = drop_last_blanks (drop_blanks s)

-- No '\n' in the text.
abbrev pub IsLine : Text → Type 0
IsLine s = All (λ c. (c == 10) ≡ false) s

-- Reading back a line that was written with its '\n', before any other text.
pub getlines-line :
    (line rest : Text) → IsLine line → getlines (line ++ 10 ∷ rest) ≡ line ∷ getlines rest
unfolding getlines to_line
getlines-line [] rest h = refl
getlines-line (c ∷ line) rest (apart, h) =
    let tail = getlines-line line rest h in rw (apart, tail) refl
