-- ===== src/Hook/Cache.antt =====
-- The cache of the games' file checks (CryptoLoader/dllmain.cpp): with it, the hook decides as it
-- would without.
use reborn_launcher.Base.{
  ℕ, ◌≡◌, refl, sym, ◌∙◌, ap, Bool, true, false, not, ◌&&◌, Option, none, some, if◌then◌else◌,
  Bool-cases, inl, inr, text_eq, text_eq_iff, Text, arith,
}
use reborn_launcher.Deferred.{is_empty_text}
use reborn_launcher.Mapping.{to_upper_ascii}
use reborn_launcher.Hook.{
  Hook, Check, Snapshot, CacheEntry, request, request_if, should_request_now, note_request,
  check_content, check_cached, check_existing, check_expected, try_get_cached, same_snapshot,
  same_bool, update_cached,
}

-- The state without the cache.
abbrev pub forget : Hook → Hook
forget hook = record hook { cache = λ _. none }

abbrev pub forget_in : Hook × Bool → Hook × Bool
forget_in (hook, synced) = (forget hook, synced)

module _ (md5_of : Text → Snapshot → Text) where
  -- Every entry says whether the content that its metadata stand for has the hash that it was
  -- compared with.
  abbrev pub IsFaithful : Hook → Type 0
  IsFaithful hook =
      (key : Text) (entry : CacheEntry)
      → hook.cache key ≡ some entry
      → entry.md5_match ≡ text_eq (md5_of key entry.snapshot) entry.expected_md5

  -- The file can be read, and its metadata stand for its content.
  abbrev pub IsHonest : Check → Type 0
  IsHonest check =
      (key : Text) (metadata : Snapshot)
      → check.key ≡ some key
      → check.metadata ≡ some metadata
      → (to_upper_ascii check.local_md5 ≡ md5_of key metadata)
        × (is_empty_text (to_upper_ascii check.local_md5) ≡ false)

same_bool-eq : (a b : Bool) → same_bool a b ≡ true → a ≡ b
unfolding same_bool
same_bool-eq true b h = sym h
same_bool-eq false true h = h
same_bool-eq false false h = refl

snapshot-eq :
    (a b : Snapshot)
    → a.exists ≡ b.exists
    → a.file_size ≡ b.file_size
    → a.write_low ≡ b.write_low
    → a.write_high ≡ b.write_high
    → a ≡ b
snapshot-eq a b e s l h = cc

same_snapshot-eq : (a b : Snapshot) → same_snapshot a b ≡ true → a ≡ b
unfolding same_snapshot
same_snapshot-eq a b h =
    snapshot-eq a b (same_bool-eq a.exists b.exists (ground arith)) (ground arith) (ground arith)
      (ground arith)

pub forget-if :
    (b c : Bool) (x y x' y' : Hook × Bool)
    → b ≡ c
    → forget_in x ≡ forget_in x'
    → forget_in y ≡ forget_in y'
    → forget_in (if b then x else y) ≡ forget_in (if c then x' else y')
forget-if true true x y x' y' e h k = h
forget-if false false x y x' y' e h k = k
forget-if true false x y x' y' e h k = cc
forget-if false true x y x' y' e h k = cc

should-forget :
    (key : Text) (now : ℕ) (hook : Hook)
    → should_request_now key now hook ≡ should_request_now key now (forget hook)
unfolding should_request_now
should-forget key now hook = refl

pub request-forget :
    (check : Check) (key : Text) (hook : Hook)
    → forget_in (request check key hook) ≡ forget_in (request check key (forget hook))
unfolding request note_request
request-forget check key hook =
    forget-if (should_request_now key check.now hook)
      (should_request_now key check.now (forget hook))
      (note_request key check.now hook, check.launcher_ok) (hook, false)
      (note_request key check.now (forget hook), check.launcher_ok) (forget hook, false)
      (should-forget key check.now hook) refl refl

pub request-same :
    (check : Check) (key : Text) (h k : Hook)
    → forget h ≡ forget k
    → forget_in (request check key h) ≡ forget_in (request check key k)
request-same check key h k same =
    request-forget check key h
    ∙ ap (λ x. forget_in (request check key x)) same
    ∙ sym (request-forget check key k)

pub request_if-same :
    (needed : Bool) (check : Check) (key : Text) (h k : Hook)
    → forget h ≡ forget k
    → forget_in (request_if needed check key h) ≡ forget_in (request_if needed check key k)
unfolding request_if
request_if-same true check key h k same = request-same check key h k same
request_if-same false check key h k same = ap (λ x. (x, false)) same

check_content-same :
    (check : Check) (key expected : Text) (hook : Hook) (o : Option Snapshot)
    → check.metadata ≡ o
    → forget_in (check_content check key expected hook)
      ≡ forget_in (check_content check key expected (forget hook))
unfolding check_content update_cached
check_content-same check key expected hook none h =
    let local = to_upper_ascii check.local_md5 in
    simp h (
      forget-if (is_empty_text local) (is_empty_text local) _ _ _ _ refl refl
        (request_if-same (not (text_eq local expected)) check key hook (forget hook) refl))
check_content-same check key expected hook (some metadata) h =
    let local = to_upper_ascii check.local_md5 in
    let matches = text_eq local expected in
    simp h (
      forget-if (is_empty_text local) (is_empty_text local) _ _ _ _ refl refl (
        request_if-same (not matches) check key (update_cached key expected metadata matches hook)
          (update_cached key expected metadata matches (forget hook)) refl))

check_content-form :
    (check : Check) (key expected : Text) (hook : Hook) (metadata : Snapshot)
    → is_empty_text (to_upper_ascii check.local_md5) ≡ false
    → check.metadata ≡ some metadata
    → forget_in (check_content check key expected hook)
      ≡ forget_in
          (request_if (not (text_eq (to_upper_ascii check.local_md5) expected)) check key hook)
unfolding check_content update_cached
check_content-form check key expected hook metadata readable h =
    let local = to_upper_ascii check.local_md5 in
    let matches = text_eq local expected in
    simp (readable, h)
      (request_if-same (not matches) check key (update_cached key expected metadata matches hook)
        hook refl)

module _ (md5_of : Text → Snapshot → Text) where
  check_cached-same :
      (check : Check) (key expected : Text) (hook : Hook) (metadata : Snapshot)
      (o : Option CacheEntry)
      → hook.cache key ≡ o
      → IsFaithful md5_of hook
      → check.metadata ≡ some metadata
      → to_upper_ascii check.local_md5 ≡ md5_of key metadata
      → is_empty_text (to_upper_ascii check.local_md5) ≡ false
      → forget_in (check_cached check key expected hook (try_get_cached expected metadata o))
        ≡ forget_in (check_content check key expected (forget hook))
  unfolding check_cached try_get_cached
  check_cached-same check key expected hook metadata none at faithful h local readable =
      check_content-same check key expected hook (some metadata) h
  check_cached-same check key expected hook metadata (some entry) at faithful h local readable =
      elim (Bool-cases
        (text_eq entry.expected_md5 expected && same_snapshot entry.snapshot metadata)) [
          | inl hit ↦
              let (same_md5, same_file) : (text_eq entry.expected_md5 expected ≡ true)
                  × (same_snapshot entry.snapshot metadata ≡ true) =
                ground arith in
              let md5 = (text_eq_iff entry.expected_md5 expected).0 same_md5 in
              let file = same_snapshot-eq entry.snapshot metadata same_file in
              let told =
                faithful key entry at
                ∙ ap (λ e. text_eq (md5_of key entry.snapshot) e) md5
                ∙ ap (λ f. text_eq (md5_of key f) expected) file
                ∙ ap (λ l. text_eq l expected) (sym local) in
              simp hit (
                ap (λ b. forget_in (request_if (not b) check key hook)) told
                ∙ sym (check_content-form check key expected hook metadata readable h)
                ∙ check_content-same check key expected hook (some metadata) h)
          | inr miss ↦ simp miss (check_content-same check key expected hook (some metadata) h)
        ]

  check_existing-same :
      (check : Check) (key expected : Text) (hook : Hook) (o : Option Snapshot)
      → check.metadata ≡ o
      → check.key ≡ some key
      → IsFaithful md5_of hook
      → IsHonest md5_of check
      → forget_in (check_existing check key expected hook o)
        ≡ forget_in (check_existing check key expected (forget hook) o)
  unfolding check_existing check_cached try_get_cached
  check_existing-same check key expected hook none h at faithful honest =
      check_content-same check key expected hook none h
  check_existing-same check key expected hook (some metadata) h at faithful honest =
      let (local, readable) = honest key metadata at h in
      forget-if (not metadata.exists) (not metadata.exists) _ _ _ _ refl
        (request-forget check key hook)
        (check_cached-same check key expected hook metadata (hook.cache key) refl faithful h local
          readable)

  pub check_expected-same :
      (check : Check) (key : Text) (hook : Hook) (o : Option Text)
      → check.key ≡ some key
      → IsFaithful md5_of hook
      → IsHonest md5_of check
      → forget_in (check_expected check key hook o)
        ≡ forget_in (check_expected check key (forget hook) o)
  unfolding check_expected
  check_expected-same check key hook none at faithful honest = refl
  check_expected-same check key hook (some expected) at faithful honest =
      forget-if (is_empty_text check.page) (is_empty_text check.page) _ _ _ _ refl refl (
        forget-if (not check.file_exists) (not check.file_exists) _ _ _ _ refl
          (request-forget check key hook)
          (check_existing-same check key expected hook check.metadata refl at faithful honest))
