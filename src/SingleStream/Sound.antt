-- ===== src/SingleStream/Sound.antt =====
-- What a successful single-stream download leaves (ChunkDownload.cpp).
use reborn_launcher.Base.{
  ℕ, ◌+◌, ◌-◌, ◌%◌, ◌≤◌, ◌<◌, ◌≡◌, refl, sym, ap, inr, true, false, ◌&&◌, List, [], ◌∷◌, Option,
  none, some, arith, dec_lt, inl, ◌∙◌, length, Bool-cases, u64_mod,
}
use reborn_launcher.Files.{FileData, empty_file}
use reborn_launcher.Files.Writes.{Matches, write_at_outside, write_at_inside}
use reborn_launcher.SingleStream.{
  Progress, Answers, Transfer, append_block, receive, conclude, probed, single_stream,
}

abbrev pub delivered : List (List ℕ × Option ℕ) → ℕ
delivered [] = 0
delivered ((bs, _) ∷ blocks) = length bs + delivered blocks

-- The blocks are the remote's bytes from offset `o` on.
abbrev pub AllMatch : (ℕ → ℕ) → ℕ → List (List ℕ × Option ℕ) → Type 0
AllMatch content o [] = Unit
AllMatch content o ((bs, _) ∷ blocks) =
    Matches content o bs × AllMatch content (o + length bs) blocks

abbrev Received : (ℕ → ℕ) → Transfer → List (List ℕ × Option ℕ) → Transfer → Type 0
Received content t blocks r =
    (r.file.size ≡ t.file.size + delivered blocks)
    × (r.written ≡ (t.written + delivered blocks) % u64_mod)
    × ((o : ℕ) → o < t.file.size → r.file.byte o ≡ t.file.byte o)
    × ((o : ℕ) → t.file.size ≤ o → o < r.file.size → r.file.byte o ≡ content o)

receive-Received :
    (content : ℕ → ℕ) (blocks : List (List ℕ × Option ℕ)) (t : Transfer)
    → AllMatch content t.file.size blocks
    → t.written < u64_mod
    → (receive t blocks).write_failed ≡ false
    → Received content t blocks (receive t blocks)
unfolding receive
receive-Received content [] t m small h =
    (omega arith, omega arith, (λ o lt. refl), λ o lo hi. absurd (omega arith))
receive-Received content ((bs, some k) ∷ blocks) t m small h = cc
receive-Received content ((bs, none) ∷ blocks) t (m, ms) small h =
    let (size, written, kept, got) =
      receive-Received content blocks (append_block t bs) ms (omega arith) h in
    (
      omega arith,
      omega arith,
      (λ o lt. kept o (omega arith) ∙ write_at_outside bs t.file.byte t.file.size o (inl lt)),
      λ o lo hi. elim (dec_lt o (t.file.size + length bs)) [
        | yes now ↦ kept o now ∙ write_at_inside content bs t.file.byte t.file.size o m lo now
        | no later ↦ got o (omega arith) hi
      ],
    )

conclude-ok :
    (a : Answers) (t : Transfer)
    → (conclude a t).ok ≡ true
    → (t.write_failed ≡ false)
      × (t.file.size - a.lost ≡ t.written)
      × ((n : ℕ) → a.probe ≡ some n → 0 < n → t.written ≡ n)
unfolding conclude
conclude-ok a t e = (ground arith, ground arith, λ n probe pos. ground arith)

conclude-target :
    (a : Answers) (t : Transfer)
    → (conclude a t).target ≡ some (record t.file { size = t.file.size - a.lost })
unfolding conclude
conclude-target a t = ground arith

abbrev opened : Answers → Progress → Transfer
opened a p = record {
  file = empty_file;
  written = 0;
  write_failed = false;
  progress = probed a.probe p;
}

single_stream-conclude :
    (a : Answers) (target : Option FileData) (p : Progress)
    → (single_stream a target p).ok ≡ true
    → single_stream a target p ≡ conclude a (receive (opened a p) a.blocks)
unfolding single_stream
single_stream-conclude a target p e = elim (Bool-cases a.session) [
  | inl there ↦ elim (Bool-cases (a.parent_ok && a.open_ok)) [
    | inl fine ↦ rw (there, fine)
    | inr bad ↦ let clash : false ≡ true = rw (there, bad) at e in cc
  ]
  | inr gone ↦ let clash : false ≡ true = rw gone at e in cc
]

-- A single-stream download that returns true leaves a file of all the bytes that arrived, whatever
-- the closing of the file loses: as many as the probe said, if it gave a size above 0, and if the
-- blocks that arrived are the remote's bytes in order, the file has them at every offset. The bytes
-- that arrive are fewer than 2^64.
pub single_stream_sound :
    (content : ℕ → ℕ) (a : Answers) (target : Option FileData) (p : Progress)
    → AllMatch content 0 a.blocks
    → delivered a.blocks < u64_mod
    → (single_stream a target p).ok ≡ true
    → (f : FileData) × ((single_stream a target p).target ≡ some f)
      × (f.size ≡ delivered a.blocks)
      × ((n : ℕ) → a.probe ≡ some n → 0 < n → f.size ≡ n)
      × ((o : ℕ) → o < f.size → f.byte o ≡ content o)
single_stream_sound content a target p m small e =
    let same = single_stream-conclude a target p e in
    let t = receive (opened a p) a.blocks in
    let (fine, size, probe) = conclude-ok a t (ap (λ r. r.ok) (sym same) ∙ e) in
    let (all, written, _, got) =
      receive-Received content a.blocks (opened a p) m (omega arith) fine in
    (
      record t.file { size = t.file.size - a.lost },
      ap (λ r. r.target) same ∙ conclude-target a t,
      omega arith,
      (λ n e' pos. let eq = probe n e' pos in omega arith),
      λ o lt. got o (omega arith) (omega arith),
    )
