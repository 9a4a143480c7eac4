-- ===== src/Chunk/Tiling.antt =====
-- The chunks that `Initialize` makes, and the byte counts over such chunks.
use reborn_launcher.Base.{
  ℕ, zero, suc, ◌+◌, ◌-◌, ◌%◌, ◌≤◌, ◌<◌, ◌≡◌, ◌↔◌, ◌||◌, min, refl, ap, ◌≢◌, ◌⊎◌, get_elem?, set,
  leb, leb→le, some, false, List, [], ◌∷◌, inl, inr, arith, All, Bool-cases, ltb, ltb→lt, lt→ltb,
  ◌==◌, Text, u64_mod,
}
use reborn_launcher.Chunk.{
  ChunkRecord, ChunkState, chunk_length, sum_downloaded, compute_downloaded_bytes, fill_chunks,
  initialize, push_chunk,
}

-- The records cover the bytes from `from` up to `size` in order, without gap or overlap.
abbrev pub Tiles : ℕ → ℕ → List ChunkRecord → Type 0
Tiles from size [] = from ≡ size
Tiles from size (c ∷ cs) =
    (c.start ≡ from) × (c.start ≤ c.end) × (c.end < size) × Tiles (c.end + 1) size cs

pub Tiles-range :
    (cs : List ChunkRecord) (from n i : ℕ) (c : ChunkRecord)
    → Tiles from n cs
    → get_elem? cs i ≡ some c
    → (from ≤ c.start) × (c.start ≤ c.end) × (c.end < n)
Tiles-range [] from n i c t h = cc
Tiles-range (x ∷ cs) from n zero c (e, lo, up, t) h = (ground arith, ground arith, ground arith)
Tiles-range (x ∷ cs) from n (suc i) c (e, lo, up, t) h =
    omega (arith, Tiles-range cs (x.end + 1) n i c t h)

-- Two different records do not overlap.
pub Tiles-disjoint :
    (cs : List ChunkRecord) (from n i j : ℕ) (c d : ChunkRecord)
    → Tiles from n cs
    → get_elem? cs i ≡ some c
    → get_elem? cs j ≡ some d
    → i ≢ j
    → (c.end < d.start) ⊎ (d.end < c.start)
Tiles-disjoint [] from n i j c d t hi hj ne = cc
Tiles-disjoint (x ∷ cs) from n zero zero c d t hi hj ne = absurd (ne refl)
Tiles-disjoint (x ∷ cs) from n zero (suc j) c d (e, lo, up, t) hi hj ne =
    let later = Tiles-range cs (x.end + 1) n j d t hj in inl (ground arith)
Tiles-disjoint (x ∷ cs) from n (suc i) zero c d (e, lo, up, t) hi hj ne =
    let later = Tiles-range cs (x.end + 1) n i c t hi in inr (ground arith)
Tiles-disjoint (x ∷ cs) from n (suc i) (suc j) c d (e, lo, up, t) hi hj ne =
    Tiles-disjoint cs (x.end + 1) n i j c d t hi hj (λ e. ne (ap suc e))

-- A write to a record that keeps its range keeps the cover.
pub Tiles-set :
    (cs : List ChunkRecord) (from n i : ℕ) (c d : ChunkRecord)
    → Tiles from n cs
    → get_elem? cs i ≡ some c
    → d.start ≡ c.start
    → d.end ≡ c.end
    → Tiles from n (set cs i d)
Tiles-set [] from n i c d t h s e = t
Tiles-set (x ∷ cs) from n zero c d (a, lo, up, t) h s e =
    let same : x.end ≡ d.end = ground arith in
    (ground arith, ground arith, ground arith, rw (← same) t)
Tiles-set (x ∷ cs) from n (suc i) c d (a, lo, up, t) h s e =
    (a, lo, up, Tiles-set cs (x.end + 1) n i c d t h s e)

-- Every byte of the file lies in a record.
pub Tiles-covers :
    (cs : List ChunkRecord) (from n o : ℕ)
    → Tiles from n cs
    → from ≤ o
    → o < n
    → (i : ℕ) × (c : ChunkRecord) × (get_elem? cs i ≡ some c) × (c.start ≤ o) × (o ≤ c.end)
Tiles-covers [] from n o t lo hi = absurd (omega arith)
Tiles-covers (x ∷ cs) from n o (a, b, up, t) lo hi = elim (Bool-cases (leb o x.end)) [
  | inl inside ↦ (0, x, refl, omega arith, leb→le _ _ inside)
  | inr past ↦
      let (i, c, e, l, r) = Tiles-covers cs (x.end + 1) n o t (ground arith) hi in
      (suc i, c, e, l, r)
]

-- A record as `Initialize` makes it: nothing is downloaded, and it is at most a chunk long.
abbrev pub IsFresh : ℕ → ChunkRecord → Type 0
IsFresh chunk_size c = (c.downloaded ≡ 0) × (c.done ≡ false) × (c.end - c.start + 1 ≤ chunk_size)

-- One more round of the loop, where no sum wraps.
fill_chunks-step :
    (fuel n k begin : ℕ) (cs : List ChunkRecord)
    → begin < n
    → 0 < k
    → n + k ≤ u64_mod
    → fill_chunks fuel n k (begin + k) ≡ some cs
    → fill_chunks (suc fuel) n k begin
      ≡ some (
          record { start = begin; end = min (n - 1) (begin + k - 1); downloaded = 0; done = false }
          ∷ cs)
unfolding fill_chunks
fill_chunks-step fuel n k begin cs more pos fits e =
    let next : (begin + k) % u64_mod ≡ begin + k = omega arith in
    let last : (begin + k + u64_mod - 1) % u64_mod ≡ begin + k - 1 = omega arith in
    rw (lt→ltb begin n more, next, last) (ap (push_chunk _) e)

fill_chunks-Tiles :
    (fuel n k begin : ℕ)
    → 0 < k
    → n + k ≤ u64_mod
    → 0 < fuel
    → n < fuel + begin
    → begin ≤ n + k
    → (cs : List ChunkRecord) × (fill_chunks fuel n k begin ≡ some cs)
      × Tiles (min begin n) n cs
      × All (IsFresh k) cs
unfolding fill_chunks
fill_chunks-Tiles zero n k begin h1 h2 h0 h3 h4 =
    ([], absurd (omega arith), absurd (omega arith), tt)
fill_chunks-Tiles (suc fuel) n k begin h1 h2 h0 h3 h4 = elim (Bool-cases (ltb begin n)) [
  | inl more ↦
      let lt : begin < n = ltb→lt begin n more in
      let (cs, filled, tiles, fresh) =
        fill_chunks-Tiles fuel n k (begin + k) h1 h2 (omega arith) (omega arith) (omega arith) in
      let joint : min (begin + k) n ≡ min (n - 1) (begin + k - 1) + 1 = omega arith in
      (
        record { start = begin; end = min (n - 1) (begin + k - 1); downloaded = 0; done = false }
            ∷ cs,
        fill_chunks-step fuel n k begin cs lt h1 h2 filled,
        (omega arith, omega arith, omega arith, rw (← joint) tiles),
        ((refl, refl, omega arith), fresh),
      )
  | inr stop ↦ ([], rw stop, ground arith, tt)
]

-- For a file that is not empty, a chunk size that is not 0 and sizes whose sum fits in 64 bits,
-- `Initialize` ends. It keeps the URL and both sizes, and its chunks cover the file without gap or
-- overlap; none of them is longer than the chunk size, and none has bytes downloaded or is done.
pub initialize-Tiles :
    (url : Text) (file_size chunk_size : ℕ)
    → 0 < file_size
    → 0 < chunk_size
    → file_size + chunk_size ≤ u64_mod
    → (s : ChunkState) × (initialize url file_size chunk_size ≡ some s)
      × (s.url ≡ url)
      × (s.file_size ≡ file_size)
      × (s.chunk_size ≡ chunk_size)
      × Tiles 0 file_size s.chunks
      × All (IsFresh chunk_size) s.chunks
unfolding initialize
initialize-Tiles url n k h1 h2 h3 =
    let (cs, filled, tiles, fresh) =
      fill_chunks-Tiles (suc n) n k 0 h2 h3 (omega arith) (omega arith) (omega arith) in
    let zero_min : min 0 n ≡ 0 = omega arith in
    (
      record { url = url; file_size = n; chunk_size = k; chunks = cs },
      elim (Bool-cases (n == 0 || k == 0)) [
        | inl none_left ↦ absurd (ground arith)
        | inr some_left ↦ rw (some_left, filled)
      ],
      refl,
      refl,
      refl,
      rw (← zero_min) tiles,
      fresh,
    )

pub chunk_length_lem :
    (c : ChunkRecord) → c.start ≤ c.end → c.end + 1 < u64_mod → chunk_length c ≡ c.end - c.start + 1
unfolding chunk_length
chunk_length_lem c h1 h2 = ground arith

-- Every chunk has all of its bytes.
abbrev pub IsFull : ChunkRecord → Type 0
IsFull c = chunk_length c ≤ c.downloaded

sum_downloaded-Tiles :
    (cs : List ChunkRecord) (total from n : ℕ)
    → Tiles from n cs
    → total + n < u64_mod + from
    → n < u64_mod
    → (sum_downloaded total cs + from ≤ total + n)
      × (sum_downloaded total cs + from ≡ total + n → All IsFull cs)
      × (All IsFull cs → sum_downloaded total cs + from ≡ total + n)
unfolding sum_downloaded
sum_downloaded-Tiles [] total from n t h1 h2 = (omega arith, (λ _. tt), λ _. omega arith)
sum_downloaded-Tiles (c ∷ cs) total from n (e, lo, hi, rest) h1 h2 =
    let len = chunk_length_lem c lo (omega arith) in
    let part = min c.downloaded (chunk_length c) in
    let exact : (total + part) % u64_mod ≡ total + part = omega arith in
    let (bound, full, back) =
      sum_downloaded-Tiles cs (total + part) (c.end + 1) n rest (omega arith) h2 in
    rw exact (
      omega arith,
      (λ h. (omega arith, full (omega arith))),
      λ h. let tail = back h.1 in let head = h.0 in omega arith,
    )

-- For chunks that cover the file, whatever their `downloaded` fields hold, the number of downloaded
-- bytes is at most the file size, and equals it exactly when every chunk has all of its bytes.
pub compute_downloaded_bytes-le :
    (s : ChunkState)
    → Tiles 0 s.file_size s.chunks
    → s.file_size < u64_mod
    → (compute_downloaded_bytes s ≤ s.file_size)
      × ((compute_downloaded_bytes s ≡ s.file_size) ↔ All IsFull s.chunks)
unfolding compute_downloaded_bytes
compute_downloaded_bytes-le s t h =
    let (bound, full, back) = sum_downloaded-Tiles s.chunks 0 0 s.file_size t (omega arith) h in
    (omega arith, ((λ e. full (omega arith)), λ a. let b = back a in omega arith))
