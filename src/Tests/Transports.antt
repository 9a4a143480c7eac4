-- ===== src/Tests/Transports.antt =====
-- Runs of a download over P2P and HTTP (DownloadResume.cpp), and a merge of lists (NetUtils.cpp).
use reborn_launcher.Base.{
  ℕ, ◌≡◌, refl, Bool, true, false, ◌||◌, ◌+◌, List, [], ◌∷◌, some, none, Text, text_eq,
}
use reborn_launcher.Files.{FileData}
use reborn_launcher.Deferred.{
  Probe, is_file_busy_for_write, to_lower_ascii, lower_char, member, is_empty_text,
}
use reborn_launcher.Deferred.Keys.{IsDistinct}
use reborn_launcher.Clients.{new_game}
use reborn_launcher.Urls.{merge_unique}
use reborn_launcher.Urls.Joins.{merge_unique_lem}
use reborn_launcher.Transport.{HttpAnswers, stored, torn, file_of, receive_all, download_http}
use reborn_launcher.Resume.{
  Sent, Reset, ResumeAnswers, Request, World, download_with_resume, verify, send,
  resolve_version_config_by_path, reset_local_file,
}

abbrev whole : FileData
whole = record { size = 3; byte = λ _. 9 }

abbrev half : FileData
half = record { size = 2; byte = λ _. 9 }

-- A hash that tells files by their size.
abbrev by_size : FileData → Text
by_size f = f.size ∷ []

abbrev sends : Bool → FileData → Sent
sends ok f = record { ok = ok; file = some f; size = 3; reports = (1, 3) ∷ []; readable = true }

abbrev free : Probe
free = record { exists = true; open_error = none; still_exists = true }

abbrev removed : Reset
removed = record { still_there = false; opens = true; empty_after = true }

-- P2P brings half of the file, and so does the first attempt over HTTP.
abbrev second_brings_it : ResumeAnswers
second_brings_it = record {
  now = 0;
  busy_at_start = free;
  p2p = some (sends true half);
  reset_after_p2p = removed;
  busy_after_p2p = free;
  has_client = true;
  first = sends true half;
  reset_after_first = removed;
  busy_after_first = free;
  second = sends true whole;
  busy_at_end = free;
}

abbrev path : Text
path = 97 ∷ []

abbrev wanted : Request
wanted = record {
  url = path;
  path = path;
  owner = 7;
  allow_deferred = true;
  allow_p2p = true;
  files = (path, record { page = path; md5 = 3 ∷ []; time = 1; size = 3 }) ∷ [];
}

abbrev before : World
before = record {
  file = none;
  current_size = 0;
  deferred = record { queue = []; queued_paths = [] };
  infos = some (new_game 40 7) ∷ [];
}

arrives : (download_with_resume by_size second_brings_it wanted before).ok ≡ true
unfolding download_with_resume is_file_busy_for_write verify send resolve_version_config_by_path
    text_eq reset_local_file is_empty_text to_lower_ascii lower_char
arrives = refl

abbrev servers : List Text
servers = (97 ∷ []) ∷ (98 ∷ []) ∷ []

servers-IsDistinct : IsDistinct servers
unfolding member text_eq
servers-IsDistinct = (refl, (refl, tt))

merge_unique_lem_example :
    IsDistinct (merge_unique servers servers)
    × ((k : Text)
        → is_empty_text k ≡ false
        → member k (merge_unique servers servers) ≡ (member k servers || member k servers))
merge_unique_lem_example = merge_unique_lem servers servers servers-IsDistinct

abbrev content : ℕ → ℕ
content o = o + 7

abbrev two_there : FileData
two_there = record { size = 2; byte = content }

-- The rest of a file of 5 bytes, cut off in its second block.
abbrev cut_off : HttpAnswers
cut_off = record {
  has_client = true;
  extension = [];
  probe = some (206, 5);
  existing_opens = true;
  removed = true;
  recreated = false;
  headers = some (206, 5);
  blocks = (9 ∷ [], stored) ∷ (10 ∷ 11 ∷ [], torn 1) ∷ [];
  answered = false;
}

four_are_there : (file_of (download_http cut_off (some two_there) 0 0).file).size ≡ 4
unfolding download_http receive_all text_eq to_lower_ascii
four_are_there = refl
