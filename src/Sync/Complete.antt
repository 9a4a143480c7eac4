-- ===== src/Sync/Complete.antt =====
-- What stands in the list of files to download before the game starts (Manifest.cpp).
use reborn_launcher.Base.{
  inr, inl, ℕ, suc, zero, ◌≡◌, refl, sym, ◌∙◌, ap, Bool, true, false, not, ◌&&◌, List, [], ◌∷◌,
  ◌++◌, Option, some, map, arith, Bool-cases, text_eq_refl, Text, All, All-append, get_elem?,
}
use reborn_launcher.Deferred.{member, is_empty_text}
use reborn_launcher.Deferred.Keys.{IsDistinct, member-append, append-IsDistinct}
use reborn_launcher.Paths.{manifest_key}
use reborn_launcher.Sync.{
  VersionConfig, Stat, Built, needs_sync, push_path, count_diffs, build_step, build_all,
  build_prelaunch_sync_list,
}

map-append {ℓ} :
    {A B : Type ℓ} (f : A → B) (xs : List A) (x : A) → map f (xs ++ x ∷ []) ≡ map f xs ++ f x ∷ []
map-append f [] x = refl
map-append f (y ∷ xs) x = ap (λ ys. f y ∷ ys) (map-append f xs x)

module _ (normal : Text → Option Text) (disk : Text → Stat)
    (baseline : Option (List (Text × VersionConfig))) where
  abbrev pub path_keys : List Text → List Text
  path_keys paths = map (λ p. manifest_key normal p) paths

  record IsBuilt (P : Text → Type 0) (b : Built) : Type 0 where
    pub distinct : IsDistinct (path_keys b.sync_list)
    pub same : (k : Text) → member k b.inserted ≡ member k (path_keys b.sync_list)
    pub all : All P b.sync_list

  -- A remote file that is to be downloaded.
  abbrev pub IsWanted : Text → VersionConfig → Type 0
  IsWanted path cfg =
      (is_empty_text (manifest_key normal path) ≡ false)
      × (needs_sync normal disk baseline path cfg ≡ true)

  push-IsBuilt :
      (P : Text → Type 0) (needs : Bool) (path : Text) (b : Built)
      → (needs ≡ true → P path)
      → IsBuilt P b
      → IsBuilt P (push_path needs path (manifest_key normal path) b)
  unfolding push_path member
  push-IsBuilt P needs path b wanted ok =
      let key = manifest_key normal path in
      elim (Bool-cases (needs && not (member key b.inserted))) [
        | inl new ↦
            let more = map-append (λ p. manifest_key normal p) b.sync_list path in
            let fresh : member key (path_keys b.sync_list) ≡ false =
              sym (ok.same key) ∙ ground arith in
            rw new (record {
              distinct = rw more (append-IsDistinct key (path_keys b.sync_list) ok.distinct fresh);
              same = λ k.
                  rw more (ground (arith, member-append k key (path_keys b.sync_list), ok.same k));
              all = All-append P b.sync_list (path ∷ []) ok.all (wanted (ground arith), tt);
            })
        | inr old ↦ rw old ok
      ]

  step-IsBuilt :
      (P : Text → Type 0) (path : Text) (cfg : VersionConfig) (b : Built)
      → (IsWanted path cfg → P path)
      → IsBuilt P b
      → IsBuilt P (build_step normal disk baseline path cfg b)
  unfolding build_step count_diffs
  step-IsBuilt P path cfg b wanted ok =
      elim (Bool-cases (is_empty_text (manifest_key normal path))) [
        | inl unnamed ↦ rw unnamed ok
        | inr named ↦ rw named (
            push-IsBuilt P (needs_sync normal disk baseline path cfg) path _
              (λ needs. wanted (named, needs))
              (record { distinct = ok.distinct; same = ok.same; all = ok.all }))
      ]

  all-IsBuilt :
      (P : Text → Type 0) (files : List (Text × VersionConfig)) (b : Built)
      → ((i : ℕ) (path : Text) (cfg : VersionConfig)
          → get_elem? files i ≡ some (path, cfg)
          → IsWanted path cfg
          → P path)
      → IsBuilt P b
      → IsBuilt P (build_all normal disk baseline files b)
  unfolding build_all
  all-IsBuilt P [] b wanted ok = ok
  all-IsBuilt P ((path, cfg) ∷ files) b wanted ok =
      all-IsBuilt P files (build_step normal disk baseline path cfg b)
        (λ i p c e. wanted (suc i) p c e) (step-IsBuilt P path cfg b (wanted 0 path cfg refl) ok)

  -- A key that stands in the list stays there.
  push-keeps :
      (needs : Bool) (path : Text) (b : Built) (k : Text)
      → member k (path_keys b.sync_list) ≡ true
      → member k (path_keys (push_path needs path (manifest_key normal path) b).sync_list) ≡ true
  unfolding push_path
  push-keeps needs path b k h =
      let key = manifest_key normal path in
      elim (Bool-cases (needs && not (member key b.inserted))) [
        | inl new ↦
            let more = map-append (λ p. manifest_key normal p) b.sync_list path in
            rw (new, more) (member-append k key (path_keys b.sync_list) ∙ ground (arith, h))
        | inr old ↦ rw old h
      ]

  step-keeps :
      (path : Text) (cfg : VersionConfig) (b : Built) (k : Text)
      → member k (path_keys b.sync_list) ≡ true
      → member k (path_keys (build_step normal disk baseline path cfg b).sync_list) ≡ true
  unfolding build_step count_diffs
  step-keeps path cfg b k h = elim (Bool-cases (is_empty_text (manifest_key normal path))) [
    | inl unnamed ↦ rw unnamed h
    | inr named ↦ rw named (push-keeps (needs_sync normal disk baseline path cfg) path _ k h)
  ]

  all-keeps :
      (files : List (Text × VersionConfig)) (b : Built) (k : Text)
      → member k (path_keys b.sync_list) ≡ true
      → member k (path_keys (build_all normal disk baseline files b).sync_list) ≡ true
  unfolding build_all
  all-keeps [] b k h = h
  all-keeps ((path, cfg) ∷ files) b k h =
      all-keeps files (build_step normal disk baseline path cfg b) k (step-keeps path cfg b k h)

  push-adds :
      (P : Text → Type 0) (path : Text) (b : Built)
      → IsBuilt P b
      → member
          (manifest_key normal path)
          (path_keys (push_path true path (manifest_key normal path) b).sync_list)
        ≡ true
  unfolding push_path
  push-adds P path b ok =
      let key = manifest_key normal path in
      elim (Bool-cases (member key b.inserted)) [
        | inl old ↦ rw old (sym (ok.same key) ∙ old)
        | inr new ↦
            let more = map-append (λ p. manifest_key normal p) b.sync_list path in
            rw (new, more)
              (member-append key key (path_keys b.sync_list) ∙ ground (arith, text_eq_refl key))
      ]

  step-adds :
      (P : Text → Type 0) (path : Text) (cfg : VersionConfig) (b : Built)
      → IsBuilt P b
      → IsWanted path cfg
      → member
          (manifest_key normal path)
          (path_keys (build_step normal disk baseline path cfg b).sync_list)
        ≡ true
  unfolding build_step count_diffs
  step-adds P path cfg b ok (named, needs) =
      rw (named, needs)
        (push-adds P path _ (record { distinct = ok.distinct; same = ok.same; all = ok.all }))

  all-adds :
      (P : Text → Type 0) (files : List (Text × VersionConfig)) (b : Built) (i : ℕ) (path : Text)
      (cfg : VersionConfig)
      → ((i : ℕ) (path : Text) (cfg : VersionConfig)
          → get_elem? files i ≡ some (path, cfg)
          → IsWanted path cfg
          → P path)
      → IsBuilt P b
      → get_elem? files i ≡ some (path, cfg)
      → IsWanted path cfg
      → member
          (manifest_key normal path)
          (path_keys (build_all normal disk baseline files b).sync_list)
        ≡ true
  unfolding build_all
  all-adds P [] b i path cfg all ok e wanted = cc
  all-adds P ((p, c) ∷ files) b zero path cfg all ok e wanted =
      let same_path : p ≡ path = cc in
      let same_cfg : c ≡ cfg = cc in
      rw (same_path, same_cfg)
        (all-keeps files _ (manifest_key normal path) (step-adds P path cfg b ok wanted))
  all-adds P ((p, c) ∷ files) b (suc i) path cfg all ok e wanted =
      all-adds P files (build_step normal disk baseline p c b) i path cfg
        (λ j q d at_j. all (suc j) q d at_j) (step-IsBuilt P p c b (all 0 p c refl) ok) e wanted

  abbrev pub IsListed : List (Text × VersionConfig) → Text → Type 0
  IsListed remote path =
      (i : ℕ) × (cfg : VersionConfig) × (get_elem? remote i ≡ some (path, cfg)) × IsWanted path cfg

  start-IsBuilt :
      (P : Text → Type 0)
      → IsBuilt P (record {
        sync_list = [];
        inserted = [];
        manifest_diff_count = 0;
        size_validation_diff_count = 0;
      })
  unfolding member
  start-IsBuilt P = record { distinct = tt; same = λ k. refl; all = tt }

  -- The list of files to download before the start, with or without a local manifest: each of its
  -- paths is one of the remote manifest that has a key and needs the download, no two of them have
  -- the same key, and for each remote path that has a key and needs the download the list has a path
  -- with the same key.
  pub build_prelaunch_sync_list_complete :
      (remote : List (Text × VersionConfig))
      → let paths = (build_prelaunch_sync_list normal disk baseline remote).sync_list in
        All (IsListed remote) paths
        × IsDistinct (path_keys paths)
        × ((i : ℕ) (path : Text) (cfg : VersionConfig)
            → get_elem? remote i ≡ some (path, cfg)
            → IsWanted path cfg
            → member (manifest_key normal path) (path_keys paths) ≡ true)
  unfolding build_prelaunch_sync_list
  build_prelaunch_sync_list_complete remote =
      let all : (i : ℕ) (path : Text) (cfg : VersionConfig)
          → get_elem? remote i ≡ some (path, cfg)
          → IsWanted path cfg
          → IsListed remote path =
        λ i path cfg e wanted. (i, cfg, e, wanted) in
      let start = start-IsBuilt (IsListed remote) in
      let built = all-IsBuilt (IsListed remote) remote _ all start in
      (
        built.all,
        built.distinct,
        λ i path cfg e wanted. all-adds (IsListed remote) remote _ i path cfg all start e wanted,
      )
