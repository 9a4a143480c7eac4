-- ===== src/Stun/Saved.antt =====
-- Saving and loading the STUN servers of the user interface (RebornLauncher/LauncherP2PConfig.cpp).
use reborn_launcher.Base.{◌≡◌, refl, false, List, [], ◌∷◌, some, Text, All}
use reborn_launcher.Deferred.{is_empty_text}
use reborn_launcher.Lines.{getlines, trim_blanks, IsLine, getlines-line}
use reborn_launcher.Stun.{load_stun_servers, saved_stun_servers, wide_lines, or_default}

-- A server that survives being saved: it converts to UTF-8 and back, to text in one line, is trimmed
-- and not empty.
abbrev pub IsSavable : (Text → Text) → (Text → Text) → Text → Type 0
IsSavable to_utf8 to_wide s =
    (to_wide (to_utf8 s) ≡ s) × IsLine (to_utf8 s) × (trim_blanks s ≡ s) × (is_empty_text s ≡ false)

wide_lines-saved :
    (to_utf8 to_wide : Text → Text) (servers : List Text)
    → All (IsSavable to_utf8 to_wide) servers
    → wide_lines to_wide (getlines (saved_stun_servers to_utf8 servers)) ≡ servers
unfolding saved_stun_servers wide_lines getlines
wide_lines-saved to_utf8 to_wide [] h = refl
wide_lines-saved to_utf8 to_wide (s ∷ servers) ((back, one_line, trim, filled), h) =
    let lines = getlines-line (to_utf8 s) (saved_stun_servers to_utf8 servers) one_line in
    let rest = wide_lines-saved to_utf8 to_wide servers h in
    rw (lines, back, trim, filled, rest) refl

-- Loading the file that saving a list of servers wrote gives the list back, where it has at least
-- one server, and each converts to UTF-8 and back, has no line end in UTF-8, no blank at its ends,
-- and is not empty.
pub load-saved_stun_servers :
    (to_utf8 to_wide : Text → Text) (s : Text) (servers : List Text)
    → All (IsSavable to_utf8 to_wide) (s ∷ servers)
    → load_stun_servers to_wide (some (saved_stun_servers to_utf8 (s ∷ servers))) ≡ s ∷ servers
unfolding load_stun_servers or_default
load-saved_stun_servers to_utf8 to_wide s servers h =
    rw (wide_lines-saved to_utf8 to_wide (s ∷ servers) h) refl
