-- ===== src/Hook/Equal.antt =====
-- Sequences of the games' file checks (CryptoLoader/dllmain.cpp), with the cache and without.
use reborn_launcher.Base.{
  ◌≡◌, refl, sym, ◌∙◌, ap, Bool, List, [], ◌∷◌, Option, none, some, Text, All,
}
use reborn_launcher.Deferred.{is_empty_text}
use reborn_launcher.Mapping.{try_get_expected_md5}
use reborn_launcher.Hook.{
  Hook, Check, Snapshot, check_key, refreshed, handle_hooked_file_check, is_in_current_directory,
}
use reborn_launcher.Hook.Cache.{
  forget, forget_in, IsFaithful, IsHonest, forget-if, check_expected-same,
}
use reborn_launcher.Hook.Faithful.{refreshed-IsFaithful, handle-IsFaithful}

-- A check of a file name, with what is answered.
abbrev pub Call : Type 0
Call = Text × Check

-- What the checks of a sequence return, in order.
unfoldable pub run_checks : (Text → Text) → List Call → Hook → List Bool
run_checks normal [] hook = []
run_checks normal ((name, check) ∷ calls) hook =
    let (after, synced) = handle_hooked_file_check normal name check hook in
    synced ∷ run_checks normal calls after

-- The same where each check finds no cache.
unfoldable pub run_uncached : (Text → Text) → List Call → Hook → List Bool
run_uncached normal [] hook = []
run_uncached normal ((name, check) ∷ calls) hook =
    let (after, synced) = handle_hooked_file_check normal name check (forget hook) in
    synced ∷ run_uncached normal calls after

refreshed-forget :
    (normal : Text → Text) (check : Check) (key : Text) (hook : Hook) (o : Option Text)
    → refreshed normal check key (forget hook) o
      ≡ (forget (refreshed normal check key hook o).0, (refreshed normal check key hook o).1)
unfolding refreshed
refreshed-forget normal check key hook none = refl
refreshed-forget normal check key hook (some expected) = refl

module _ (md5_of : Text → Snapshot → Text) where
  check_key-same :
      (normal : Text → Text) (check : Check) (hook : Hook) (o : Option Text)
      → check.key ≡ o
      → IsFaithful md5_of hook
      → IsHonest md5_of check
      → forget_in (check_key normal check hook o)
        ≡ forget_in (check_key normal check (forget hook) o)
  unfolding check_key
  check_key-same normal check hook none at faithful honest = refl
  check_key-same normal check hook (some key) at faithful honest =
      let expected = try_get_expected_md5 key hook.files in
      rw (refreshed-forget normal check key hook expected) (
        forget-if (is_in_current_directory check.directory key)
          (is_in_current_directory check.directory key) _ _ _ _ refl
          (check_expected-same md5_of check key (refreshed normal check key hook expected).0
            (refreshed normal check key hook expected).1 at
            (refreshed-IsFaithful md5_of normal check key hook expected faithful) honest)
          refl)

  handle-same :
      (normal : Text → Text) (name : Text) (check : Check) (hook : Hook)
      → IsFaithful md5_of hook
      → IsHonest md5_of check
      → forget_in (handle_hooked_file_check normal name check hook)
        ≡ forget_in (handle_hooked_file_check normal name check (forget hook))
  unfolding handle_hooked_file_check
  handle-same normal name check hook faithful honest =
      forget-if (is_empty_text name) (is_empty_text name) _ _ _ _ refl refl
        (check_key-same normal check hook check.key refl faithful honest)

  uncached-forget :
      (normal : Text → Text) (calls : List Call) (hook : Hook)
      → run_uncached normal calls (forget hook) ≡ run_uncached normal calls hook
  unfolding run_uncached
  uncached-forget normal [] hook = refl
  uncached-forget normal ((name, check) ∷ calls) hook = refl

  -- Over any sequence of checks, the hook with its cache returns at each check what it returns when
  -- every check finds the cache empty; provided that at each check with metadata the file can be read
  -- and its hash is the one that its path and metadata stand for, and that the same holds of the
  -- entries of the cache at first.
  pub run_checks-run_uncached :
      (normal : Text → Text) (calls : List Call) (hook : Hook)
      → IsFaithful md5_of hook
      → All (λ call. IsHonest md5_of call.1) calls
      → run_checks normal calls hook ≡ run_uncached normal calls hook
  unfolding run_checks run_uncached
  run_checks-run_uncached normal [] hook faithful honest = refl
  run_checks-run_uncached normal ((name, check) ∷ calls) hook faithful (h, honest) =
      let same = handle-same normal name check hook faithful h in
      let after = handle_hooked_file_check normal name check hook in
      let after' = handle_hooked_file_check normal name check (forget hook) in
      let rest =
        run_checks-run_uncached normal calls after.0
          (handle-IsFaithful md5_of normal name check hook faithful h) honest in
      let states : forget after.0 ≡ forget after'.0 = ap (λ r. r.0) same in
      let synced : after.1 ≡ after'.1 = ap (λ r. r.1) same in
      let others =
        sym (uncached-forget normal calls after.0)
        ∙ ap (run_uncached normal calls) states
        ∙ uncached-forget normal calls after'.0 in
      let tail = rest ∙ others in cc
