-- ===== src/Hook/Faithful.antt =====
-- The cache of the games' file checks stays true (CryptoLoader/dllmain.cpp).
use reborn_launcher.Base.{
  ◌≡◌, refl, ap, subst, Bool, true, false, not, Option, none, some, if-cases, Bool-cases, inl, inr,
  text_eq, text_eq_iff, Text,
}
use reborn_launcher.Deferred.{is_empty_text}
use reborn_launcher.Mapping.{to_upper_ascii, try_get_expected_md5}
use reborn_launcher.Hook.{
  Hook, Check, Snapshot, CacheEntry, request, request_if, should_request_now, note_request,
  check_content, check_cached, check_existing, check_expected, check_key, refreshed,
  handle_hooked_file_check, update_cached, put_at, is_in_current_directory,
}
use reborn_launcher.Hook.Cache.{IsFaithful, IsHonest}

some-eq : (a b : CacheEntry) → some a ≡ some b → a ≡ b
some-eq a b h = cc

module _ (md5_of : Text → Snapshot → Text) where
  pub refreshed-IsFaithful :
      (normal : Text → Text) (check : Check) (key : Text) (hook : Hook) (o : Option Text)
      → IsFaithful md5_of hook
      → IsFaithful md5_of (refreshed normal check key hook o).0
  unfolding refreshed
  refreshed-IsFaithful normal check key hook none faithful = faithful
  refreshed-IsFaithful normal check key hook (some expected) faithful = faithful

  request-IsFaithful :
      (check : Check) (key : Text) (hook : Hook)
      → IsFaithful md5_of hook
      → IsFaithful md5_of (request check key hook).0
  unfolding request note_request
  request-IsFaithful check key hook faithful =
      if-cases (λ (r : Hook × Bool). IsFaithful md5_of r.0) (should_request_now key check.now hook)
        _ _ (λ _. faithful) (λ _. faithful)

  request_if-IsFaithful :
      (needed : Bool) (check : Check) (key : Text) (hook : Hook)
      → IsFaithful md5_of hook
      → IsFaithful md5_of (request_if needed check key hook).0
  unfolding request_if
  request_if-IsFaithful true check key hook faithful = request-IsFaithful check key hook faithful
  request_if-IsFaithful false check key hook faithful = faithful

  update-IsFaithful :
      (key expected : Text) (metadata : Snapshot) (matches : Bool) (hook : Hook)
      → matches ≡ text_eq (md5_of key metadata) expected
      → IsFaithful md5_of hook
      → IsFaithful md5_of (update_cached key expected metadata matches hook)
  unfolding update_cached put_at
  update-IsFaithful key expected metadata matches hook told faithful j entry at =
      let new : CacheEntry = record {
        snapshot = metadata;
        expected_md5 = expected;
        md5_match = matches;
      } in
      elim (Bool-cases (text_eq key j)) [
        | inl same ↦
            let here = some-eq new entry (rw same at at) in
            let told_j =
              subst (λ i. matches ≡ text_eq (md5_of i metadata) expected)
                ((text_eq_iff key j).0 same) told in
            subst (λ e. e.md5_match ≡ text_eq (md5_of j e.snapshot) e.expected_md5) here told_j
        | inr other ↦ faithful j entry (rw other at at)
      ]

  check_content-IsFaithful :
      (check : Check) (key expected : Text) (hook : Hook) (o : Option Snapshot)
      → check.metadata ≡ o
      → check.key ≡ some key
      → IsFaithful md5_of hook
      → IsHonest md5_of check
      → IsFaithful md5_of (check_content check key expected hook).0
  unfolding check_content
  check_content-IsFaithful check key expected hook none h at faithful honest =
      let local = to_upper_ascii check.local_md5 in
      simp h (
        if-cases (λ (r : Hook × Bool). IsFaithful md5_of r.0) (is_empty_text local) _ _
          (λ _. faithful)
          (λ _. request_if-IsFaithful (not (text_eq local expected)) check key hook faithful))
  check_content-IsFaithful check key expected hook (some metadata) h at faithful honest =
      let local = to_upper_ascii check.local_md5 in
      let matches = text_eq local expected in
      let updated = update_cached key expected metadata matches hook in
      let told = ap (λ l. text_eq l expected) (honest key metadata at h).0 in
      simp h (
        if-cases (λ (r : Hook × Bool). IsFaithful md5_of r.0) (is_empty_text local) _ _
          (λ _. faithful)
          (λ _.
            request_if-IsFaithful (not matches) check key updated
              (update-IsFaithful key expected metadata matches hook told faithful)))

  check_cached-IsFaithful :
      (check : Check) (key expected : Text) (hook : Hook) (o : Option Bool)
      → check.key ≡ some key
      → IsFaithful md5_of hook
      → IsHonest md5_of check
      → IsFaithful md5_of (check_cached check key expected hook o).0
  unfolding check_cached
  check_cached-IsFaithful check key expected hook none at faithful honest =
      check_content-IsFaithful check key expected hook check.metadata refl at faithful honest
  check_cached-IsFaithful check key expected hook (some needed) at faithful honest =
      request_if-IsFaithful needed check key hook faithful

  check_existing-IsFaithful :
      (check : Check) (key expected : Text) (hook : Hook) (o : Option Snapshot)
      → check.key ≡ some key
      → IsFaithful md5_of hook
      → IsHonest md5_of check
      → IsFaithful md5_of (check_existing check key expected hook o).0
  unfolding check_existing
  check_existing-IsFaithful check key expected hook none at faithful honest =
      check_content-IsFaithful check key expected hook check.metadata refl at faithful honest
  check_existing-IsFaithful check key expected hook (some metadata) at faithful honest =
      if-cases (λ (r : Hook × Bool). IsFaithful md5_of r.0) (not metadata.exists) _ _
        (λ _. request-IsFaithful check key hook faithful)
        (λ _. check_cached-IsFaithful check key expected hook _ at faithful honest)

  check_expected-IsFaithful :
      (check : Check) (key : Text) (hook : Hook) (o : Option Text)
      → check.key ≡ some key
      → IsFaithful md5_of hook
      → IsHonest md5_of check
      → IsFaithful md5_of (check_expected check key hook o).0
  unfolding check_expected
  check_expected-IsFaithful check key hook none at faithful honest = faithful
  check_expected-IsFaithful check key hook (some expected) at faithful honest =
      let P = λ (r : Hook × Bool). IsFaithful md5_of r.0 in
      if-cases P (is_empty_text check.page) _ _ (λ _. faithful)
        (λ _.
          if-cases P (not check.file_exists) _ _ (λ _. request-IsFaithful check key hook faithful)
            (λ _.
              check_existing-IsFaithful check key expected hook check.metadata at faithful honest))

  check_key-IsFaithful :
      (normal : Text → Text) (check : Check) (hook : Hook) (o : Option Text)
      → check.key ≡ o
      → IsFaithful md5_of hook
      → IsHonest md5_of check
      → IsFaithful md5_of (check_key normal check hook o).0
  unfolding check_key
  check_key-IsFaithful normal check hook none at faithful honest = faithful
  check_key-IsFaithful normal check hook (some key) at faithful honest =
      let expected = try_get_expected_md5 key hook.files in
      if-cases (λ (r : Hook × Bool). IsFaithful md5_of r.0)
        (is_in_current_directory check.directory key) _ _
        (λ _.
          check_expected-IsFaithful check key (refreshed normal check key hook expected).0 _ at
            (refreshed-IsFaithful normal check key hook expected faithful) honest)
        (λ _. faithful)

  pub handle-IsFaithful :
      (normal : Text → Text) (name : Text) (check : Check) (hook : Hook)
      → IsFaithful md5_of hook
      → IsHonest md5_of check
      → IsFaithful md5_of (handle_hooked_file_check normal name check hook).0
  unfolding handle_hooked_file_check
  handle-IsFaithful normal name check hook faithful honest =
      if-cases (λ (r : Hook × Bool). IsFaithful md5_of r.0) (is_empty_text name) _ _ (λ _. faithful)
        (λ _. check_key-IsFaithful normal check hook check.key refl faithful honest)
