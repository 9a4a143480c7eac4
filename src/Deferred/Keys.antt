-- ===== src/Deferred/Keys.antt =====
-- Membership of a key, for the queue of deferred updates (DownloadResume.cpp).
use reborn_launcher.Base.{
  ◌<◌, All, inr, inl, ℕ, ◌≡◌, ◌≤◌, refl, ◌∙◌, ap, false, not, ◌&&◌, ◌||◌, List, [], ◌∷◌, ◌++◌,
  Option, none, some, map, arith, text_eq_sym, Bool-cases, text_eq, text_eq_iff, text_eq_refl, Text,
  leb, leb→le,
}
use reborn_launcher.Deferred.{Task, key_of, member, erase, redirect, find_due, behind}

abbrev pub keys : List Task → List Text
keys ts = map (λ t. key_of t) ts

-- No key stands twice.
abbrev pub IsDistinct : List Text → Type 0
IsDistinct [] = Unit
IsDistinct (k ∷ ks) = (member k ks ≡ false) × IsDistinct ks

pub member-erase :
    (j k : Text) (ks : List Text) → member k (erase j ks) ≡ (member k ks && not (text_eq j k))
unfolding member erase
member-erase j k [] = refl
member-erase j k (x ∷ ks) =
    let rest = member-erase j k ks in
    let (to_j, _) = text_eq_iff x j in
    elim (Bool-cases (text_eq x j)) [
      | inl same ↦ let here = to_j same in rw (here, text_eq_refl j) (ground (arith, rest))
      | inr other ↦ elim (Bool-cases (text_eq x k)) [
        | inl found ↦
            let at_k = (text_eq_iff x k).0 found in
            let apart : text_eq j k ≡ false = text_eq_sym j k ∙ (rw at_k at other) in
            ground (arith, rest)
        | inr missed ↦ ground (arith, rest)
      ]
    ]

pub member-append :
    (k j : Text) (ks : List Text) → member k (ks ++ j ∷ []) ≡ (member k ks || text_eq j k)
unfolding member
member-append k j [] = ground arith
member-append k j (x ∷ ks) = ground (arith, member-append k j ks)

pub append-IsDistinct :
    (j : Text) (ks : List Text) → IsDistinct ks → member j ks ≡ false → IsDistinct (ks ++ j ∷ [])
unfolding member
append-IsDistinct j [] d h = (refl, tt)
append-IsDistinct j (k ∷ ks) (fresh, d) h =
    let (head, tail) : (text_eq k j ≡ false) × (member j ks ≡ false) = ground arith in
    (ground (arith, member-append k j ks, text_eq_sym j k), append-IsDistinct j ks d tail)

pub keys-append : (ts : List Task) (t : Task) → keys (ts ++ t ∷ []) ≡ keys ts ++ key_of t ∷ []
keys-append [] t = refl
keys-append (u ∷ ts) t = ap (λ ks. key_of u ∷ ks) (keys-append ts t)

-- Redirecting a task keeps every key.
pub keys-redirect :
    (k url : Text) (owner : ℕ) (ts : List Task) → keys (redirect k url owner ts) ≡ keys ts
unfolding redirect
keys-redirect k url owner [] = refl
keys-redirect k url owner (t ∷ ts) = elim (Bool-cases (text_eq (key_of t) k)) [
  | inl same ↦ rw same refl
  | inr other ↦ rw other (ap (λ ks. key_of t ∷ ks) (keys-redirect k url owner ts))
]

-- What the search for a due task takes out of the queue: the first one that is due.
pub record IsTaken (now : ℕ) (ts : List Task) (t : Task) (rest : List Task) : Type 0 where
  pub due : t.next_retry ≤ now
  pub before : List Task
  pub after : List Task
  pub whole : ts ≡ before ++ t ∷ after
  pub others : rest ≡ before ++ after
  pub not_due : All (λ u. now < u.next_retry) before
  pub members : (k : Text) → member k (keys ts) ≡ (text_eq (key_of t) k || member k (keys rest))
  pub distinct :
      IsDistinct (keys ts) → IsDistinct (keys rest) × (member (key_of t) (keys rest) ≡ false)

abbrev pub Found : ℕ → List Task → Option (Task × List Task) → Type 0
Found now ts none = All (λ u. now < u.next_retry) ts
Found now ts (some (t, rest)) = IsTaken now ts t rest

first-IsTaken :
    (now : ℕ) (t : Task) (ts : List Task) → t.next_retry ≤ now → IsTaken now (t ∷ ts) t ts
unfolding member
first-IsTaken now t ts due = record {
  due = due;
  before = [];
  after = ts;
  whole = refl;
  others = refl;
  not_due = tt;
  members = λ k. refl;
  distinct = λ d. (d.1, d.0);
}

behind-Found :
    (now : ℕ) (u : Task) (ts : List Task) (o : Option (Task × List Task))
    → now < u.next_retry
    → Found now ts o
    → Found now (u ∷ ts) (behind u o)
unfolding member
behind-Found now u ts none wait found = (wait, found)
behind-Found now u ts (some (t, rest)) wait found = record {
  due = found.due;
  before = u ∷ found.before;
  after = found.after;
  whole = ap (λ us. u ∷ us) found.whole;
  others = ap (λ us. u ∷ us) found.others;
  not_due = (wait, found.not_due);
  members = λ k. ground (arith, found.members k);
  distinct = λ (fresh, d).
      let (rest_distinct, away) = found.distinct d in
      let split = found.members (key_of u) in
      (
        (ground (arith, split), rest_distinct),
        ground (arith, split, away, text_eq_sym (key_of u) (key_of t)),
      );
}

pub find_due-Found : (now : ℕ) (ts : List Task) → Found now ts (find_due now ts)
unfolding find_due
find_due-Found now [] = tt
find_due-Found now (t ∷ ts) = elim (Bool-cases (leb t.next_retry now)) [
  | inl due ↦ rw due (first-IsTaken now t ts (leb→le t.next_retry now due))
  | inr wait ↦
      rw wait (behind-Found now t ts (find_due now ts) (ground arith) (find_due-Found now ts))
]
