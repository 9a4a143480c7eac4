-- ===== src/Forge/Equal.antt =====
-- The comparison of files by UpdateForge/UpdateForge.cpp.
use reborn_launcher.Base.{
  ==_iff, ◌≢◌, ℕ, zero, suc, ◌<◌, ◌≡◌, refl, sym, ◌∙◌, ap, Bool, true, false, not, [], ◌∷◌, ◌++◌,
  Option, some, ◌==◌, if-cases, Bool-cases, inl, inr, text_eq, text_eq_iff, Text, length, take,
  drop, length-take, length-drop, take-append-drop, arith,
}
use reborn_launcher.Forge.{block_size, compare_blocks, are_files_binary_equal}

pub different : (left right : Text) → (left ≡ right → ⊥) → text_eq left right ≡ false
different left right h = elim (Bool-cases (text_eq left right)) [
  | inl same ↦ absurd (h ((text_eq_iff left right).0 same))
  | inr apart ↦ apart
]

no_bytes : (s : Text) → length s ≡ 0 → s ≡ []
no_bytes [] h = refl
no_bytes (c ∷ s) h = absurd (omega arith)

-- Once the first blocks are the same, the rest decides.
rest-decides :
    (left right : Text)
    → text_eq (take block_size left) (take block_size right) ≡ true
    → text_eq (drop block_size left) (drop block_size right) ≡ text_eq left right
rest-decides left right h =
    elim (Bool-cases (text_eq (drop block_size left) (drop block_size right))) [
      | inl same ↦
          let heads = (text_eq_iff (take block_size left) (take block_size right)).0 h in
          let tails = (text_eq_iff (drop block_size left) (drop block_size right)).0 same in
          let whole : left ≡ right =
            sym (take-append-drop block_size left)
            ∙ ap (λ t. t ++ drop block_size left) heads
            ∙ ap (λ t. take block_size right ++ t) tails
            ∙ take-append-drop block_size right in
          same ∙ sym ((text_eq_iff left right).1 whole)
      | inr apart ↦
          apart
          ∙ sym (
              different left right (λ e.
                let tails = ap (λ t. drop block_size t) e in
                let same = (text_eq_iff (drop block_size left) (drop block_size right)).1 tails in
                cc))
    ]

true_false : (b : Bool) → b ≡ true → not b ≡ true → ⊥
true_false b h k = ground arith

not_same : (a b : ℕ) → not (a == b) ≡ true → a ≢ b
not_same a b h = ground arith

not_differ : (a b : ℕ) → not (a == b) ≡ false → a ≡ b
not_differ a b h = ground arith

not_zero : (a : ℕ) → (a == 0) ≡ false → a ≢ 0
not_zero a h = ground arith

not-false : (b : Bool) → not b ≡ false → b ≡ true
not-false b h = ground arith

blocks-apart :
    (left right : Text)
    → not (text_eq (take block_size left) (take block_size right)) ≡ true
    → left ≢ right
blocks-apart left right apart e =
    let n =
      (text_eq_iff (take block_size left) (take block_size right)).1
        (ap (λ t. take block_size t) e) in
    true_false _ n apart

both-empty :
    (left right : Text)
    → length (take block_size left) ≡ 0
    → length (take block_size right) ≡ 0
    → text_eq left right ≡ true
both-empty left right l r =
    let size : block_size ≡ 65536 = refl in
    let none_left : length left ≡ 0 = omega (arith, size, length-take block_size left) in
    let none_right : length right ≡ 0 = omega (arith, size, length-take block_size right) in
    (text_eq_iff left right).1 (no_bytes left none_left ∙ sym (no_bytes right none_right))

shorter :
    (left : Text) (rounds : ℕ)
    → length (take block_size left) ≢ 0
    → length left < suc rounds
    → length (drop block_size left) < rounds
shorter left rounds filled enough =
    let size : block_size ≡ 65536 = refl in
    omega (arith, size, length-take block_size left, length-drop block_size left)

compare_blocks-text_eq :
    (rounds : ℕ) (left right : Text)
    → length left < rounds
    → compare_blocks rounds left right ≡ some (text_eq left right)
unfolding compare_blocks
compare_blocks-text_eq zero left right enough = absurd (omega arith)
compare_blocks-text_eq (suc rounds) left right enough =
    let P = λ (o : Option Bool). o ≡ some (text_eq left right) in
    let l = length (take block_size left) in
    let r = length (take block_size right) in
    if-cases P (not (l == r)) _ _
      (λ longer. ap some (
        sym (
          different left right
            (λ e. not_same l r longer (ap (λ t. length (take block_size t)) e)))))
      (λ same_size.
        if-cases P (l == 0) _ _
          (λ empty. ap some (
            sym (
              both-empty left right ((==_iff l 0).0 empty)
                (sym (not_differ l r same_size) ∙ (==_iff l 0).0 empty))))
          (λ filled.
            if-cases P (not (text_eq (take block_size left) (take block_size right))) _ _
              (λ apart. ap some (sym (different left right (λ e. blocks-apart left right apart e))))
              (λ same.
                compare_blocks-text_eq rounds (drop block_size left) (drop block_size right)
                  (shorter left rounds (not_zero l filled) enough)
                ∙ ap some (rest-decides left right (not-false _ same)))))

-- The comparison of two files in blocks, whatever they hold, comes to an end within one round more
-- than the first has bytes, and tells whether they hold the same bytes.
pub are_files_binary_equal-text_eq :
    (left right : Text) → are_files_binary_equal left right ≡ some (text_eq left right)
unfolding are_files_binary_equal
are_files_binary_equal-text_eq left right =
    compare_blocks-text_eq (suc (length left)) left right (omega arith)
