-- ===== src/Mapping/Store.antt =====
-- Ordered tables of texts: what a find_value finds after an insertion.
use reborn_launcher.Base.{
  ◌≡◌, refl, sym, ◌∙◌, subst, false, [], ◌∷◌, none, some, Text, text_eq, text_eq_iff, text_eq_refl,
  text_eq_sym, Bool-cases, if-cases, if◌then◌else◌, inl, inr, All,
}
use reborn_launcher.Mapping.{Table, insert, remove, put, find_value, text_lt}

-- No key stands twice.
abbrev pub HasKeysOnce : Table → Type 0
HasKeysOnce [] = Unit
HasKeysOnce ((k, v) ∷ table) = (find_value k table ≡ none) × HasKeysOnce table

find_value-insert_other :
    (key value j : Text) (table : Table)
    → text_eq key j ≡ false
    → find_value j (insert key value table) ≡ find_value j table
unfolding find_value insert
find_value-insert_other key value j [] apart = rw apart refl
find_value-insert_other key value j ((k, v) ∷ table) apart =
    let rest = find_value-insert_other key value j table apart in
    elim (Bool-cases (text_lt key k)) [
      | inl before ↦ rw (before, apart) refl
      | inr after ↦ rw (after, rest) refl
    ]

find_value-insert_self :
    (key value : Text) (table : Table)
    → find_value key table ≡ none
    → find_value key (insert key value table) ≡ some value
unfolding find_value insert
find_value-insert_self key value [] new = rw (text_eq_refl key) refl
find_value-insert_self key value ((k, v) ∷ table) new = elim (Bool-cases (text_eq k key)) [
  | inl same ↦ absurd (subst (λ o. elim o [ none ↦ ⊥ | some _ ↦ Unit ]) (rw same at new) tt)
  | inr apart ↦
      let rest = find_value-insert_self key value table (rw apart at new) in
      elim (Bool-cases (text_lt key k)) [
        | inl before ↦ rw (before, text_eq_refl key) refl
        | inr after ↦ rw (after, apart, rest) refl
      ]
]

find_value-remove_self : (key : Text) (table : Table) → find_value key (remove key table) ≡ none
unfolding find_value remove
find_value-remove_self key [] = refl
find_value-remove_self key ((k, v) ∷ table) =
    let rest = find_value-remove_self key table in
    elim (Bool-cases (text_eq k key)) [
      | inl same ↦ rw same rest
      | inr apart ↦ rw apart (rw (apart, rest) refl)
    ]

find_value-remove_other :
    (key j : Text) (table : Table)
    → text_eq key j ≡ false
    → find_value j (remove key table) ≡ find_value j table
unfolding find_value remove
find_value-remove_other key j [] apart = refl
find_value-remove_other key j ((k, v) ∷ table) apart =
    let rest = find_value-remove_other key j table apart in
    elim (Bool-cases (text_eq k key)) [
      | inl same ↦
          let eq = (text_eq_iff k key).0 same in
          let gone : text_eq k j ≡ false = subst (λ i. text_eq i j ≡ false) (sym eq) apart in
          rw (same, gone) rest
      | inr other ↦ rw (other, rest) refl
    ]

-- What a find_value finds after an insertion.
pub find_value-put :
    (key value j : Text) (table : Table)
    → find_value j (put key value table)
      ≡ (if text_eq key j then some value else find_value j table)
unfolding put
find_value-put key value j table = elim (Bool-cases (text_eq key j)) [
  | inl same ↦
      let eq = (text_eq_iff key j).0 same in
      rw same (
        subst (λ i. find_value i (insert key value (remove key table)) ≡ some value) eq
          (find_value-insert_self key value (remove key table) (find_value-remove_self key table)))
  | inr apart ↦ rw apart (
      find_value-insert_other key value j (remove key table) apart
      ∙ find_value-remove_other key j table apart)
]

insert-HasKeysOnce :
    (key value : Text) (table : Table)
    → find_value key table ≡ none
    → HasKeysOnce table
    → HasKeysOnce (insert key value table)
unfolding insert find_value
insert-HasKeysOnce key value [] new once = (refl, tt)
insert-HasKeysOnce key value ((k, v) ∷ table) new once = elim (Bool-cases (text_lt key k)) [
  | inl before ↦ rw before (new, once)
  | inr after ↦ elim (Bool-cases (text_eq k key)) [
    | inl same ↦ absurd (subst (λ o. elim o [ none ↦ ⊥ | some _ ↦ Unit ]) (rw same at new) tt)
    | inr apart ↦
        let apart' : text_eq key k ≡ false = text_eq_sym key k ∙ apart in
        rw after (
          find_value-insert_other key value k table apart' ∙ once.0,
          insert-HasKeysOnce key value table (rw apart at new) once.1,
        )
  ]
]

remove-HasKeysOnce :
    (key : Text) (table : Table) → HasKeysOnce table → HasKeysOnce (remove key table)
unfolding remove
remove-HasKeysOnce key [] once = tt
remove-HasKeysOnce key ((k, v) ∷ table) once =
    let rest = remove-HasKeysOnce key table once.1 in
    elim (Bool-cases (text_eq k key)) [
      | inl same ↦ rw same rest
      | inr apart ↦
          let apart' : text_eq key k ≡ false = text_eq_sym key k ∙ apart in
          rw apart (find_value-remove_other key k table apart' ∙ once.0, rest)
    ]

pub put-HasKeysOnce :
    (key value : Text) (table : Table) → HasKeysOnce table → HasKeysOnce (put key value table)
unfolding put
put-HasKeysOnce key value table once =
    insert-HasKeysOnce key value (remove key table) (find_value-remove_self key table)
      (remove-HasKeysOnce key table once)

module _ {ℓ} (P : Text × Text → Type ℓ) where
  insert-All :
      (key value : Text) (table : Table)
      → P (key, value)
      → All P table
      → All P (insert key value table)
  unfolding insert
  insert-All key value [] p all = (p, tt)
  insert-All key value ((k, v) ∷ table) p all =
      if-cases (All P) (text_lt key k) _ _ (λ _. (p, all))
        (λ _. (all.0, insert-All key value table p all.1))

  remove-All : (key : Text) (table : Table) → All P table → All P (remove key table)
  unfolding remove
  remove-All key [] all = tt
  remove-All key ((k, v) ∷ table) all =
      if-cases (All P) (text_eq k key) _ _ (λ _. remove-All key table all.1)
        (λ _. (all.0, remove-All key table all.1))

  pub put-All :
      (key value : Text) (table : Table)
      → P (key, value)
      → All P table
      → All P (put key value table)
  unfolding put
  put-All key value table p all =
      insert-All key value (remove key table) p (remove-All key table all)
