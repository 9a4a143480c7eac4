-- ===== src/Urls/Joins.antt =====
-- What the paths and lists of NetUtils.cpp hold.
use reborn_launcher.Base.{
  inr, inl, ◌≡◌, refl, ◌∙◌, true, false, ◌||◌, List, [], ◌∷◌, ◌++◌, arith, Bool-cases, Text,
  text_eq, text_eq_iff, subst, ◌⊎◌, inl, inr,
}
use reborn_launcher.Deferred.{member, is_empty_text}
use reborn_launcher.Deferred.Keys.{IsDistinct, member-append, append-IsDistinct}
use reborn_launcher.Urls.{merge_unique}

merge_unique-IsDistinct :
    (source target : List Text) → IsDistinct target → IsDistinct (merge_unique target source)
unfolding merge_unique
merge_unique-IsDistinct [] target d = d
merge_unique-IsDistinct (item ∷ source) target d = elim (Bool-cases (is_empty_text item)) [
  | inl blank ↦ rw blank (merge_unique-IsDistinct source target d)
  | inr filled ↦ elim (Bool-cases (member item target)) [
    | inl old ↦ rw (filled, old) (merge_unique-IsDistinct source target d)
    | inr new ↦
        rw (filled, new)
          (merge_unique-IsDistinct source (target ++ item ∷ [])
            (append-IsDistinct item target d new))
  ]
]

blank-apart : (i k : Text) → is_empty_text i ≡ true → is_empty_text k ≡ false → text_eq i k ≡ false
unfolding is_empty_text text_eq
blank-apart [] [] h n = cc
blank-apart [] (x ∷ k) h n = refl
blank-apart (y ∷ i) k h n = cc

member-same :
    (i k : Text) (ks : List Text)
    → member i ks ≡ true
    → (text_eq i k ≡ false) ⊎ (member k ks ≡ true)
member-same i k ks h = elim (Bool-cases (text_eq i k)) [
  | inl same ↦
      let eq : i ≡ k = (text_eq_iff i k).0 same in inr (subst (λ j. member j ks ≡ true) eq h)
  | inr other ↦ inl other
]

-- The members of the merged list.
merge_unique-member :
    (k : Text) (source target : List Text)
    → is_empty_text k ≡ false
    → member k (merge_unique target source) ≡ (member k target || member k source)
unfolding merge_unique member
merge_unique-member k [] target named = ground arith
merge_unique-member k (item ∷ source) target named = elim (Bool-cases (is_empty_text item)) [
  | inl blank ↦
      let apart = blank-apart item k blank named in
      rw blank (merge_unique-member k source target named ∙ ground (arith, apart))
  | inr filled ↦ elim (Bool-cases (member item target)) [
    | inl old ↦
        let there = member-same item k target old in
        rw (filled, old) (merge_unique-member k source target named ∙ ground (arith, there))
    | inr new ↦
        rw (filled, new)
          (merge_unique-member k source (target ++ item ∷ []) named
            ∙ ground (arith, member-append k item target))
  ]
]

-- Merging a list of servers into one without doubles leaves one without doubles, whose members are
-- those of both lists but for empty texts.
pub merge_unique_lem :
    (target source : List Text)
    → IsDistinct target
    → IsDistinct (merge_unique target source)
      × ((k : Text)
          → is_empty_text k ≡ false
          → member k (merge_unique target source) ≡ (member k target || member k source))
merge_unique_lem target source d =
    (merge_unique-IsDistinct source target d, λ k named. merge_unique-member k source target named)
