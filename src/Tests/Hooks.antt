-- ===== src/Tests/Hooks.antt =====
-- A manifest with one file, published and read, and checks of that file.
use reborn_launcher.P2p.{begins_with}
use reborn_launcher.Paths.{trim_ascii}
use reborn_launcher.Deferred.{is_empty_text}
use reborn_launcher.Base.{
  leb, ◌^◌, ◌%◌, ◌≤◌, ◌+◌, length, ◌<◌, text_eq, ◌≡◌, refl, true, false, List, [], ◌∷◌, ◌++◌,
  Option, none, some, Text, All, arith, ℕ, subst,
}
use reborn_launcher.Mapping.{
  to_upper_ascii, put, version_map_max_bytes, Table, FileItem, mapped_files, payload_of,
  write_version_to_mapping, refresh_version_map, try_get_expected_md5,
}
use reborn_launcher.Mapping.Mapped.{IsPlain}
use reborn_launcher.Mapping.Published.{publish_refresh_lem}
use reborn_launcher.Hook.{
  note_request, should_request_now, handle_hooked_file_check, Hook, Check, Snapshot, CacheEntry,
}
use reborn_launcher.Hook.Cooldown.{should_request_now-note_request}
use reborn_launcher.Hook.Cache.{IsHonest}
use reborn_launcher.Hook.Equal.{Call, run_checks, run_uncached, run_checks-run_uncached}

-- The page "p" with the hash "a1".
abbrev items : List FileItem
items = record { page = 112 ∷ []; md5 = 97 ∷ 49 ∷ [] } ∷ []

-- Pages lie below "d\".
abbrev below_d : Text → Option Text
below_d page = some (100 ∷ 92 ∷ page)

abbrev as_is : Text → Text
as_is s = s

abbrev one_entry : Table
one_entry = (100 ∷ 92 ∷ 112 ∷ [], 65 ∷ 49 ∷ []) ∷ []

mapped-one : one_entry ≡ mapped_files below_d [] items
unfolding mapped_files is_empty_text trim_ascii put
mapped-one = refl

one-IsPlain : All (IsPlain as_is) one_entry
one-IsPlain = (
  record {
    key_fields = ((refl, refl), ((refl, refl), ((refl, refl), tt)));
    no_tab = (refl, (refl, (refl, tt)));
    normal_key = refl;
    value_fields = ((refl, refl), ((refl, refl), tt));
  },
  tt,
)

one-fits : length (payload_of one_entry) + 1 ≤ version_map_max_bytes
unfolding payload_of
one-fits = omega arith

publish_refresh_lem_example :
    (view : Text) × (write_version_to_mapping below_d (some items) true true none ≡ some view)
    × ((padding : Text) (files : Table)
        → ((refresh_version_map as_is (some (view ++ padding)) files).1 ≡ true)
          × ((key : Text)
              → try_get_expected_md5 key
                  (refresh_version_map as_is (some (view ++ padding)) files).0
                ≡ try_get_expected_md5 key (mapped_files below_d [] items)))
publish_refresh_lem_example =
    publish_refresh_lem below_d as_is items none
      (subst (λ t. 0 < length t) mapped-one (omega arith))
      (subst (λ t. length (payload_of t) + 1 ≤ version_map_max_bytes) mapped-one one-fits)
      (subst (All (IsPlain as_is)) mapped-one one-IsPlain)

-- A game in "d" asks for the file twice; its content has another hash.
abbrev metadata : Snapshot
metadata = record { exists = true; file_size = 5; write_low = 1; write_high = 2 }

abbrev check_at : ℕ → Check
check_at now = record {
  directory = 100 ∷ [];
  key = some (100 ∷ 92 ∷ 112 ∷ []);
  page = 112 ∷ [];
  file_exists = true;
  metadata = some metadata;
  local_md5 = 66 ∷ [];
  view = none;
  now = now;
  launcher_ok = true;
}

abbrev calls : List Call
calls = (112 ∷ [], check_at 10) ∷ (112 ∷ [], check_at 20) ∷ (112 ∷ [], check_at 4000) ∷ []

abbrev hook : Hook
hook = record { files = one_entry; cache = λ _. none; ticks = λ _. 0 }

abbrev hash_b : Text → Snapshot → Text
hash_b key snapshot = 66 ∷ []

check-IsHonest : (now : ℕ) → IsHonest hash_b (check_at now)
unfolding to_upper_ascii is_empty_text
check-IsHonest now key snapshot at there = (refl, refl)

no_entry : {A : Type 0} (e : CacheEntry) → none ≡ some e → A
no_entry e h = cc

run_checks-run_uncached_example : run_checks as_is calls hook ≡ run_uncached as_is calls hook
run_checks-run_uncached_example =
    run_checks-run_uncached hash_b as_is calls hook (λ key entry at. no_entry entry at)
      (check-IsHonest 10, (check-IsHonest 20, (check-IsHonest 4000, tt)))

checked_thrice : run_checks as_is calls hook ≡ true ∷ false ∷ true ∷ []
unfolding run_checks handle_hooked_file_check is_empty_text text_eq begins_with try_get_expected_md5
    to_upper_ascii
checked_thrice = refl

abbrev page_p : Text
page_p = 112 ∷ []

-- A request just before the tick wraps around, and the next after 3000 milliseconds.
should_request_now-note_request_example :
    should_request_now page_p ((4294967000 + 3000) % 2 ^ 32) (note_request page_p 4294967000 hook)
    ≡ leb 3000 3000
should_request_now-note_request_example =
    should_request_now-note_request page_p 4294967000 3000 hook (omega arith) (omega arith)
      (omega arith)
