-- ===== src/Files/Writes.antt =====
-- What a write leaves in a file.
use reborn_launcher.Base.{
  min, ℕ, zero, suc, ◌+◌, ◌≤◌, ◌<◌, ◌≡◌, ◌⊎◌, refl, ℕ_discrete, List, [], ◌∷◌, arith, length,
}
use reborn_launcher.Files.{write_at, write_part}

-- The remote's bytes from offset `o` on.
abbrev pub Matches : (ℕ → ℕ) → ℕ → List ℕ → Type 0
Matches content o [] = Unit
Matches content o (b ∷ bs) = (b ≡ content o) × Matches content (suc o) bs

pub write_at_outside :
    (bs : List ℕ) (f : ℕ → ℕ) (offset o : ℕ)
    → (o < offset) ⊎ (offset + length bs ≤ o)
    → write_at f offset bs o ≡ f o
unfolding write_at
write_at_outside [] f offset o h = refl
write_at_outside (b ∷ bs) f offset o h = ground (arith, write_at_outside bs f (suc offset) o)

pub write_at_inside :
    (content : ℕ → ℕ) (bs : List ℕ) (f : ℕ → ℕ) (offset o : ℕ)
    → Matches content offset bs
    → offset ≤ o
    → o < offset + length bs
    → write_at f offset bs o ≡ content o
unfolding write_at
write_at_inside content [] f offset o m lo hi = absurd (omega arith)
write_at_inside content (b ∷ bs) f offset o (e, m) lo hi = elim (ℕ_discrete o offset) [
  | yes here ↦ rw here (ground arith)
  | no ne ↦ ground (arith, write_at_inside content bs f (suc offset) o m)
]

pub write_part_outside :
    (n : ℕ) (bs : List ℕ) (f : ℕ → ℕ) (offset o : ℕ)
    → (o < offset) ⊎ (offset + length bs ≤ o)
    → write_part n f offset bs o ≡ f o
unfolding write_part
write_part_outside n [] f offset o h = refl
write_part_outside zero (b ∷ bs) f offset o h = refl
write_part_outside (suc n) (b ∷ bs) f offset o h =
    ground (arith, write_part_outside n bs f (suc offset) o)

pub write_part_inside :
    (content : ℕ → ℕ) (n : ℕ) (bs : List ℕ) (f : ℕ → ℕ) (offset o : ℕ)
    → Matches content offset bs
    → offset ≤ o
    → o < offset + min n (length bs)
    → write_part n f offset bs o ≡ content o
unfolding write_part
write_part_inside content n [] f offset o m lo hi = absurd (omega arith)
write_part_inside content zero (b ∷ bs) f offset o m lo hi = absurd (omega arith)
write_part_inside content (suc n) (b ∷ bs) f offset o (e, m) lo hi = elim (ℕ_discrete o offset) [
  | yes here ↦ rw here (ground arith)
  | no ne ↦ ground (arith, write_part_inside content n bs f (suc offset) o m)
]
