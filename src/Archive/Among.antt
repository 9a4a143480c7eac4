-- ===== src/Archive/Among.antt =====
-- The files that `ScanArchive` of RebornLauncher/Archive.cpp lists, and the entries they come from.
use reborn_launcher.Base.{
  ◌≡◌, refl, ◌∙◌, ap, ◌⊎◌, List, [], ◌∷◌, ◌++◌, Option, none, some, inl, inr, Text, Bool-cases,
}
use reborn_launcher.Deferred.{is_empty_text}
use reborn_launcher.Archive.{DataBlock}
use reborn_launcher.Archive.Extract.{Entry, scan_entries, scanned_as, entry_name}

-- The files stand among the entries, in order.
abbrev pub IsAmong : List DataBlock → List Entry → Type 0
IsAmong [] entries = Unit
IsAmong (f ∷ fs) [] = ⊥
IsAmong (f ∷ fs) (e ∷ entries) =
    ((entry_name e ≡ some f.file_path) × IsAmong fs entries) ⊎ IsAmong (f ∷ fs) entries

pub later-IsAmong :
    (fs : List DataBlock) (e : Entry) (entries : List Entry)
    → IsAmong fs entries
    → IsAmong fs (e ∷ entries)
later-IsAmong [] e entries h = tt
later-IsAmong (f ∷ fs) e entries h = inr h

fewer-IsAmong :
    (f : DataBlock) (fs : List DataBlock) (entries : List Entry)
    → IsAmong (f ∷ fs) entries
    → IsAmong fs entries
fewer-IsAmong f fs [] h = absurd h
fewer-IsAmong f fs (e ∷ entries) (inl (_, h)) = later-IsAmong fs e entries h
fewer-IsAmong f fs (e ∷ entries) (inr h) = later-IsAmong fs e entries (fewer-IsAmong f fs entries h)

cons-parts {ℓ} : {A : Type ℓ} (x y : A) (xs ys : List A) → x ∷ xs ≡ y ∷ ys → (x ≡ y) × (xs ≡ ys)
cons-parts x y xs ys h = (cc, cc)

-- Where the first of the scanned files is split off.
first-IsAmong :
    (before files after : List DataBlock) (d : DataBlock) (scanned : List DataBlock) (e : Entry)
    (entries : List Entry)
    → entry_name e ≡ some d.file_path
    → ((bs fs : List DataBlock) → scanned ≡ bs ++ fs ++ after → IsAmong fs entries)
    → d ∷ scanned ≡ before ++ files ++ after
    → IsAmong files (e ∷ entries)
first-IsAmong [] [] after d scanned e entries name rest h = tt
first-IsAmong [] (f ∷ fs) after d scanned e entries name rest h =
    let (same, tail) = cons-parts d f scanned (fs ++ after) h in
    inl (name ∙ ap (λ g. some g.file_path) same, rest [] fs tail)
first-IsAmong (b ∷ before) files after d scanned e entries name rest h =
    let (_, tail) = cons-parts d b scanned (before ++ files ++ after) h in
    later-IsAmong files e entries (rest before files tail)

scanned_as-IsAmong :
    (before files after scanned : List DataBlock) (e : Entry) (entries : List Entry)
    (o : Option Text)
    → entry_name e ≡ o
    → ((bs fs : List DataBlock) → scanned ≡ bs ++ fs ++ after → IsAmong fs entries)
    → scanned_as e scanned o ≡ before ++ files ++ after
    → IsAmong files (e ∷ entries)
unfolding scanned_as
scanned_as-IsAmong before files after scanned e entries none name rest h =
    later-IsAmong files e entries (rest before files h)
scanned_as-IsAmong before files after scanned e entries (some n) name rest h =
    let d : DataBlock = record { file_path = n; file_offset = e.position } in
    elim (Bool-cases (is_empty_text n)) [
      | inl blank ↦ later-IsAmong files e entries (rest before files (rw blank at h))
      | inr filled ↦ first-IsAmong before files after d scanned e entries name rest (rw filled at h)
    ]

-- Any run of the scanned files stands among the entries.
pub scan-IsAmong :
    (entries : List Entry) (before files after : List DataBlock)
    → scan_entries entries ≡ before ++ files ++ after
    → IsAmong files entries
unfolding scan_entries
scan-IsAmong [] [] [] after h = tt
scan-IsAmong [] [] (f ∷ files) after h = cc
scan-IsAmong [] (b ∷ before) files after h = cc
scan-IsAmong (e ∷ entries) before files after h =
    scanned_as-IsAmong before files after (scan_entries entries) e entries (entry_name e) refl
      (λ bs fs. scan-IsAmong entries bs fs after) h

pub behind-IsAmong :
    (f : DataBlock) (fs : List DataBlock) (e : Entry) (entries : List Entry)
    → IsAmong (f ∷ fs) (e ∷ entries)
    → IsAmong fs entries
behind-IsAmong f fs e entries (inl (_, h)) = h
behind-IsAmong f fs e entries (inr h) = fewer-IsAmong f fs entries h
