-- ===== src/Paths/LocalOnly.antt =====
-- Which files the list of local-only files keeps from an update (Manifest.cpp,
-- LauncherUpdateCoordinator.cpp).
use reborn_launcher.Base.{
  inr, inl, ℕ, zero, suc, get_elem?, ◌≡◌, refl, sym, ◌∙◌, ap, Bool, true, false, ◌||◌, List, [],
  ◌∷◌, Option, none, some, map, arith, Bool-cases, text_eq, text_eq_iff, text_eq_refl, Text, ◌==◌,
}
use reborn_launcher.Deferred.{lower_char, to_lower_ascii, back_slash, member, is_empty_text}
use reborn_launcher.Paths.{
  trim_ascii, slash, strip, stored_of, looked_up_of, stored_key, looked_up_key, keep_key,
  local_only_files, skipped_of, is_runtime_update_skipped,
}

-- A `/` stands in the text.
unfoldable pub has_slash : Text → Bool
has_slash [] = false
has_slash (c ∷ s) = c == 47 || has_slash s

lower_back-has_slash : (s : Text) → has_slash (to_lower_ascii (map back_slash s)) ≡ false
unfolding has_slash to_lower_ascii lower_char back_slash
lower_back-has_slash [] = refl
lower_back-has_slash (c ∷ s) = let rest = lower_back-has_slash s in ground (arith, rest)

stored_of-has_slash : (o : Option Text) → has_slash (stored_of o) ≡ false
unfolding stored_of has_slash
stored_of-has_slash none = refl
stored_of-has_slash (some s) = lower_back-has_slash (strip s)

stored_key-has_slash :
    (normal : Text → Option Text) (v : Text) → has_slash (stored_key normal v) ≡ false
unfolding stored_key has_slash
stored_key-has_slash normal v = elim (Bool-cases (is_empty_text (trim_ascii v))) [
  | inl blank ↦ rw blank refl
  | inr filled ↦ rw filled (stored_of-has_slash (normal (strip (map slash (trim_ascii v)))))
]

has_slash-apart : (j k : Text) → has_slash j ≡ false → has_slash k ≡ true → text_eq j k ≡ false
has_slash-apart j k flat deep = elim (Bool-cases (text_eq j k)) [
  | inl same ↦
      let eq : j ≡ k = (text_eq_iff j k).0 same in
      let clash : false ≡ true = sym flat ∙ ap has_slash eq ∙ deep in cc
  | inr other ↦ other
]

keep_key-member :
    (j k : Text) (ks : List Text) → text_eq j k ≡ false → member k (keep_key j ks) ≡ member k ks
unfolding keep_key member
keep_key-member j k ks apart = elim (Bool-cases (is_empty_text j)) [
  | inl blank ↦ rw blank refl
  | inr filled ↦ rw (filled, apart) refl
]

keep_key-grows :
    (j k : Text) (ks : List Text) → member k ks ≡ true → member k (keep_key j ks) ≡ true
unfolding keep_key member
keep_key-grows j k ks h = ground (arith, h)

local_only_files-member :
    (normal : Text → Option Text) (items : List (Option Text)) (k : Text)
    → has_slash k ≡ true
    → member k (local_only_files normal items) ≡ false
unfolding local_only_files member
local_only_files-member normal [] k h = refl
local_only_files-member normal (none ∷ items) k h = local_only_files-member normal items k h
local_only_files-member normal (some v ∷ items) k h =
    keep_key-member (stored_key normal v) k (local_only_files normal items)
      (has_slash-apart (stored_key normal v) k (stored_key-has_slash normal v) h)
    ∙ local_only_files-member normal items k h

-- A file whose looked-up key has a directory in it is never kept from an update, whatever the list
-- of local-only files says and whatever std::filesystem makes of the paths: the list is kept with
-- `\` between the names and searched with `/`.
pub directory_never_skipped :
    (normal : Text → Option Text) (items : List (Option Text)) (path key : Text)
    → looked_up_key normal path ≡ some key
    → has_slash key ≡ true
    → is_runtime_update_skipped normal (local_only_files normal items) path ≡ some false
unfolding is_runtime_update_skipped skipped_of
directory_never_skipped normal items path key e deep =
    let missing = local_only_files-member normal items key deep in rw (e, missing) (ground arith)

lower_back_flat_char :
    (c : ℕ) → (lower_char c == 47) ≡ false → lower_char (back_slash c) ≡ lower_char c
unfolding lower_char back_slash
lower_back_flat_char c h = ground arith

lower_back_flat :
    (s : Text)
    → has_slash (to_lower_ascii s) ≡ false
    → to_lower_ascii (map back_slash s) ≡ to_lower_ascii s
unfolding has_slash to_lower_ascii
lower_back_flat [] h = refl
lower_back_flat (c ∷ s) h =
    let rest = lower_back_flat s (ground arith) in
    let here : (lower_char c == 47) ≡ false = ground arith in
    rw (lower_back_flat_char c here) (ap (λ r. lower_char c ∷ r) rest)

of_flat :
    (o : Option Text) (k : Text) → looked_up_of o ≡ some k → has_slash k ≡ false → stored_of o ≡ k
unfolding looked_up_of stored_of
of_flat none k e h = cc
of_flat (some s) k e h =
    let same : to_lower_ascii (strip s) ≡ k = cc in lower_back_flat (strip s) (rw same h) ∙ same

stored_key_flat :
    (normal : Text → Option Text) (v k : Text)
    → looked_up_key normal v ≡ some k
    → has_slash k ≡ false
    → stored_key normal v ≡ k
unfolding looked_up_key stored_key
stored_key_flat normal v k e h = elim (Bool-cases (is_empty_text (trim_ascii v))) [
  | inl blank ↦ rw blank (let e' : some [] ≡ some k = rw blank at e in cc)
  | inr filled ↦
      rw filled (of_flat (normal (strip (map slash (trim_ascii v)))) k (rw filled at e) h)
]

keeps-member :
    (normal : Text → Option Text) (items : List (Option Text)) (i : ℕ) (v k : Text)
    → get_elem? items i ≡ some (some v)
    → stored_key normal v ≡ k
    → is_empty_text k ≡ false
    → member k (local_only_files normal items) ≡ true
unfolding local_only_files member keep_key
keeps-member normal [] i v k e same filled = cc
keeps-member normal (some w ∷ items) zero v k e same filled =
    let eq : w ≡ v = cc in rw (eq, same, filled, text_eq_refl k) refl
keeps-member normal (none ∷ items) zero v k e same filled = cc
keeps-member normal (none ∷ items) (suc i) v k e same filled =
    keeps-member normal items i v k e same filled
keeps-member normal (some w ∷ items) (suc i) v k e same filled =
    let rest = keeps-member normal items i v k e same filled in
    keep_key-grows (stored_key normal w) k _ rest

-- A file whose looked-up key is a bare name is kept from an update when the list has an item with
-- the same looked-up key.
pub bare_name_skipped :
    (normal : Text → Option Text) (items : List (Option Text)) (i : ℕ) (path item key : Text)
    → get_elem? items i ≡ some (some item)
    → looked_up_key normal item ≡ some key
    → looked_up_key normal path ≡ some key
    → has_slash key ≡ false
    → is_empty_text key ≡ false
    → is_runtime_update_skipped normal (local_only_files normal items) path ≡ some true
unfolding is_runtime_update_skipped skipped_of
bare_name_skipped normal items i path item key at_i of_item of_path flat filled =
    let there =
      keeps-member normal items i item key at_i (stored_key_flat normal item key of_item flat)
        filled in
    rw (of_path, filled, there) refl
