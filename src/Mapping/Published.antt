-- ===== src/Mapping/Published.antt =====
-- The hashes that the hook expects are those of the manifest (RebornLauncher/Mapping.cpp and
-- CryptoLoader/dllmain.cpp).
use reborn_launcher.Base.{
  text_eq_refl, ◌+◌, ◌≤◌, ◌<◌, ◌≡◌, refl, ◌∙◌, ap, true, false, List, [], ◌∷◌, ◌++◌, Option, none,
  some, Text, length, arith, All, ltb, append_assoc,
}
use reborn_launcher.Deferred.{is_empty_text}
use reborn_launcher.Lines.{getlines}
use reborn_launcher.Mapping.{
  Table, FileItem, find_value, mapped_files, payload_of, parse_lines, parse_version_map_payload,
  view_text, write_version_to_mapping, version_map_max_bytes, refresh_version_map, swapped,
  try_get_expected_md5,
}
use reborn_launcher.Mapping.Store.{HasKeysOnce}
use reborn_launcher.Mapping.Carried.{
  IsCarried, or_in, find_value-parse_lines, payload-IsNonzero, view_text-nul,
}
use reborn_launcher.Mapping.Mapped.{IsPlain, AreMapped, mapped_files-AreMapped, All-IsCarried}

swapped-filled :
    (files table : Table) (k v : Text)
    → find_value k table ≡ some v
    → swapped files table ≡ (table, true)
unfolding swapped find_value
swapped-filled files [] k v h = cc
swapped-filled files (entry ∷ table) k v h = refl

payload-filled :
    (k v : Text) (table : Table)
    → is_empty_text k ≡ false
    → is_empty_text (payload_of ((k, v) ∷ table)) ≡ false
unfolding payload_of is_empty_text
payload-filled [] v table h = cc
payload-filled (c ∷ k) v table h = refl

find_value-first : (k v : Text) (table : Table) → find_value k ((k, v) ∷ table) ≡ some v
unfolding find_value
find_value-first k v table = rw (text_eq_refl k) refl

or_in-none : (o : Option Text) → or_in o none ≡ o
unfolding or_in
or_in-none none = refl
or_in-none (some v) = refl

-- What the hook reads in a view of the payload, whatever stands behind its NUL.
abbrev IsRead : (Text → Text) → Table → Text → Type 0
IsRead normal table view =
    (padding : Text) (files : Table)
    → ((refresh_version_map normal (some (view ++ padding)) files).1 ≡ true)
      × ((key : Text)
          → find_value key (refresh_version_map normal (some (view ++ padding)) files).0
            ≡ find_value key table)

payload-IsRead :
    (normal : Text → Text) (k v : Text) (table : Table)
    → HasKeysOnce ((k, v) ∷ table)
    → All (IsCarried normal) ((k, v) ∷ table)
    → IsRead normal ((k, v) ∷ table) (payload_of ((k, v) ∷ table) ++ 0 ∷ [])
unfolding refresh_version_map parse_version_map_payload find_value
payload-IsRead normal k v table once all padding files =
    let m : Table = (k, v) ∷ table in
    let payload = payload_of m in
    let parsed = parse_lines normal [] (getlines payload) in
    let text =
      ap view_text (append_assoc payload (0 ∷ []) padding)
      ∙ view_text-nul payload padding (payload-IsNonzero normal m all) in
    let found : (j : Text) → find_value j parsed ≡ find_value j m =
      λ j. find_value-parse_lines normal j m [] once all ∙ or_in-none (find_value j m) in
    let swap = swapped-filled files parsed k v (found k ∙ find_value-first k v table) in
    rw (text, payload-filled k v table all.0.named, swap) (refl, found)

expected-same :
    (key : Text) (s t : Table)
    → find_value key s ≡ find_value key t
    → try_get_expected_md5 key s ≡ try_get_expected_md5 key t
unfolding try_get_expected_md5
expected-same key s t h = rw h refl

written :
    (full_key : Text → Option Text) (items : List FileItem) (section : Option Text) (k v : Text)
    (table : Table)
    → mapped_files full_key [] items ≡ (k, v) ∷ table
    → is_empty_text k ≡ false
    → length (payload_of ((k, v) ∷ table)) + 1 ≤ version_map_max_bytes
    → write_version_to_mapping full_key (some items) true true section
      ≡ some (payload_of ((k, v) ∷ table) ++ 0 ∷ [])
unfolding write_version_to_mapping
written full_key items section k v table h named fits =
    let small : ltb version_map_max_bytes (length (payload_of ((k, v) ∷ table)) + 1) ≡ false =
      ground arith in
    rw (h, payload-filled k v table named, small) refl

abbrev PublishedAs :
    (Text → Option Text) → (Text → Text) → List FileItem → Option Text → Table → Type 0
PublishedAs full_key normal items section mapped =
    (view : Text) × (write_version_to_mapping full_key (some items) true true section ≡ some view)
    × ((padding : Text) (files : Table)
        → ((refresh_version_map normal (some (view ++ padding)) files).1 ≡ true)
          × ((key : Text)
              → try_get_expected_md5 key
                  (refresh_version_map normal (some (view ++ padding)) files).0
                ≡ try_get_expected_md5 key mapped))

of_table :
    (full_key : Text → Option Text) (normal : Text → Text) (items : List FileItem)
    (section : Option Text) (mapped : Table)
    → mapped_files full_key [] items ≡ mapped
    → AreMapped mapped
    → 0 < length mapped
    → length (payload_of mapped) + 1 ≤ version_map_max_bytes
    → All (IsPlain normal) mapped
    → PublishedAs full_key normal items section mapped
of_table full_key normal items section [] same h some_files fits plain = absurd (omega arith)
of_table full_key normal items section ((k, v) ∷ table) same (once, all) some_files fits plain =
    let m : Table = (k, v) ∷ table in
    let read = payload-IsRead normal k v table once (All-IsCarried normal m all plain) in
    (
      payload_of m ++ 0 ∷ [],
      written full_key items section k v table same all.0.named fits,
      λ padding files.
          let (fresh, found) = read padding files in
          (fresh, λ key. expected-same key _ m (found key)),
    )

-- Publishing the table of a manifest and reading it in the hook, where at least one file is mapped,
-- the payload with its NUL fits into the limit, the section is created and viewed, and neither a key
-- nor a hash has a line end or a NUL, no key a tab, and the hook's normal form of each key is the key:
-- the section holds a text such that the hook's refresh succeeds, whatever stands behind it in the
-- view and whatever the hook knew before, and then expects for every key the hash that the launcher
-- has for it, and none for a key that the launcher does not have.
pub publish_refresh_lem :
    (full_key : Text → Option Text) (normal : Text → Text) (items : List FileItem)
    (section : Option Text)
    → let mapped = mapped_files full_key [] items in
      0 < length mapped
      → length (payload_of mapped) + 1 ≤ version_map_max_bytes
      → All (IsPlain normal) mapped
      → (view : Text) × (write_version_to_mapping full_key (some items) true true section
          ≡ some view)
        × ((padding : Text) (files : Table)
            → ((refresh_version_map normal (some (view ++ padding)) files).1 ≡ true)
              × ((key : Text)
                  → try_get_expected_md5 key
                      (refresh_version_map normal (some (view ++ padding)) files).0
                    ≡ try_get_expected_md5 key mapped))
publish_refresh_lem full_key normal items section some_files fits plain =
    of_table full_key normal items section (mapped_files full_key [] items) refl
      (mapped_files-AreMapped full_key items [] (tt, tt)) some_files fits plain
