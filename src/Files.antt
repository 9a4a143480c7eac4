-- ===== src/Files.antt =====
-- Files as the downloads see them: a size, and the byte at each offset below it.
pub mod Writes
use reborn_launcher.Base.{
  ℕ, zero, suc, ◌+◌, ◌-◌, Bool, true, false, ◌&&◌, List, [], ◌∷◌, Option, none, some, length, ◌==◌,
  if◌then◌else◌,
}

pub record FileData : Type 0 where
  pub size : ℕ
  pub byte : ℕ → ℕ

abbrev pub empty_file : FileData
empty_file = record { size = 0; byte = λ _. 0 }

-- A file that was sized by one write at its last offset.
abbrev pub zero_file : ℕ → FileData
zero_file n = record { size = n; byte = λ _. 0 }

-- The bytes after a write of a block at an offset.
unfoldable pub write_at : (ℕ → ℕ) → ℕ → List ℕ → ℕ → ℕ
write_at file offset [] o = file o
write_at file offset (b ∷ bs) o =
    let rest = write_at file (suc offset) bs o in if o == offset then b else rest

-- The same, where the write fails after `n` bytes.
unfoldable pub write_part : ℕ → (ℕ → ℕ) → ℕ → List ℕ → ℕ → ℕ
write_part n file offset [] o = file o
write_part zero file offset (b ∷ bs) o = file o
write_part (suc n) file offset (b ∷ bs) o =
    let rest = write_part n file (suc offset) bs o in if o == offset then b else rest
