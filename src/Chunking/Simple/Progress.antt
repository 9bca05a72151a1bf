-- ===== src/Chunking/Simple/Progress.antt =====
-- Where the loop of `SimpleChunkingStrategy.chunk` does end: with no overlap, or on a document of
-- one line with an overlap below the chunk size.
use ai_backend_api.Base.{
  ℕ, zero, suc, ◌+◌, ◌-◌, ◌≤◌, ◌<◌, ◌≡◌, ◌≢◌, ◌⊎◌, inl, inr, min, refl, Option, none, some, List,
  [], ◌∷◌, arith, length, true, false, Bool, dec_lt, ◌==◌, ◌&&◌, leb, ltb, if◌then◌else◌,
  Option-cases, Bool-cases, ap,
}
use ai_backend_api.Base.Text.{Text, strip, is_nonempty, contains}
use ai_backend_api.Base.Int.{pos, negsuc, min_ℤ, ◌+ℤ◌}
use ai_backend_api.Chunking.Data.{ChunkData}
use ai_backend_api.Chunking.Simple.{
  newline, found_pos, last_index, rfind, window_end, emit, next_start, loop, chunk,
}
use ai_backend_api.Chunking.Simple.Divergence.{last_index-absent}

-- Nothing found, or something in the range.
abbrev Within : ℕ → ℕ → Option ℕ → Type 0
Within i j none = Unit
Within i j (some k) = (i ≤ k) × (k < j)

last_index-Within :
    (c : ℕ) (s : Text) (k i j : ℕ) (found : Option ℕ)
    → Within i j found
    → Within i j (last_index c s k i j found)
unfolding last_index
last_index-Within c [] k i j found h = h
last_index-Within c (d ∷ s) k i j found h =
    last_index-Within c s (suc k) i j _ (step (d == c) (leb i k) refl (ltb k j) refl)
  where
    step :
        (b x : Bool)
        → leb i k ≡ x
        → (y : Bool) → ltb k j ≡ y
        → Within i j (if b && (x && y) then some k else found)
    step false x p y q = h
    step true false p y q = h
    step true true p false q = h
    step true true p true q = (ground arith, ground arith)

module _ (content : Text) (chunk_size chunk_overlap : ℕ) (smaller : chunk_overlap < chunk_size)
    (tame : (chunk_overlap ≡ 0) ⊎ (contains newline content ≡ false)) where
  rfind-one_line :
      (i j : ℕ)
      → contains newline content ≡ false
      → rfind content newline (pos i) (pos j) ≡ negsuc 0
  unfolding rfind
  rfind-one_line i j h = ap found_pos (last_index-absent newline content 0 i j none h)

  rfind-cases :
      (i j : ℕ)
      → (rfind content newline (pos i) (pos j) ≡ negsuc 0)
        ⊎ ((k : ℕ) × (rfind content newline (pos i) (pos j) ≡ pos k) × (i ≤ k) × (k < j))
  unfolding rfind
  rfind-cases i j =
      found (last_index newline content 0 i j none)
        (last_index-Within newline content 0 i j none tt)
    where
      found :
          (o : Option ℕ)
          → Within i j o
          → (found_pos o ≡ negsuc 0) ⊎ ((k : ℕ) × (found_pos o ≡ pos k) × (i ≤ k) × (k < j))
      found none h = inl refl
      found (some k) h = inr (k, refl, h.0, h.1)

  -- A window ends behind its start and within the document; on a document of one line it has the
  -- chunk size, or reaches the end.
  window_end-progress :
      (s : ℕ)
      → s < length content
      → (e : ℕ) × (window_end content chunk_size chunk_overlap (pos s) ≡ pos e)
        × (s < e)
        × (e ≤ length content)
        × (contains newline content ≡ false → e ≡ min (s + chunk_size) (length content))
  unfolding window_end
  window_end-progress s h =
      let top = min (s + chunk_size) (length content) in
      let e : min_ℤ (pos s +ℤ pos chunk_size) (pos (length content)) ≡ pos top = ground arith in
      elim (rfind-cases s top) [
        | inl r ↦ (top, rw (e, r) (ground arith), omega arith, omega arith, λ _. refl)
        | inr (k, r, a, b) ↦ elim (dec_lt s k) [
          | no at_start ↦ (top, rw (e, r) (ground arith), omega arith, omega arith, λ _. refl)
          | yes behind ↦ elim (dec_lt top (length content)) [
            | no last ↦ (top, rw (e, r) (ground arith), omega arith, omega arith, λ _. refl)
            | yes inner ↦ (
              k + 1,
              rw (e, r) (ground arith),
              omega arith,
              omega arith,
              λ one_line. absurd (cc (rfind-one_line s top one_line)),
            )
          ]
        ]
      ]

  next_start-inner :
      (e : ℕ)
      → chunk_overlap ≤ e
      → e < length content
      → next_start content chunk_size chunk_overlap (pos e) ≡ pos (e - chunk_overlap)
  unfolding next_start
  next_start-inner e h lt = ground arith

  next_start-last :
      (e : ℕ) → e ≡ length content → next_start content chunk_size chunk_overlap (pos e) ≡ pos e
  unfolding next_start
  next_start-last e q = ground arith

  -- The next start is behind this one.
  next_start-progress :
      (s : ℕ)
      → s < length content
      → (n : ℕ) × (next_start content chunk_size chunk_overlap
            (window_end content chunk_size chunk_overlap (pos s))
          ≡ pos n)
        × (s < n)
        × (n ≤ length content)
  next_start-progress s h =
      let (e, at, behind, within, one_line) = window_end-progress s h in
      elim (dec_lt e (length content)) [
        | no last ↦ (e, rw at (next_start-last e (omega arith)), behind, within)
        | yes inner ↦ elim tame [
          | inl z ↦ (
            e - chunk_overlap,
            rw at (next_start-inner e (omega arith) inner),
            omega arith,
            omega arith,
          )
          | inr line ↦ (
            e - chunk_overlap,
            rw at (next_start-inner e (omega (arith, one_line line)) inner),
            omega (arith, one_line line),
            omega arith,
          )
        ]
      ]

  loop-ne-none :
      (fuel s : ℕ) (acc : List ChunkData × ℕ)
      → s ≤ length content
      → length content < fuel + s
      → loop content chunk_size chunk_overlap fuel (pos s) acc ≢ none
  unfolding loop
  loop-ne-none zero s acc le h = absurd (omega arith)
  loop-ne-none (suc fuel) s acc le h = elim (dec_lt s (length content)) [
    | yes inside ↦
        let (n, next, a, b) = next_start-progress s inside in
        rw next (
          ground (
            arith,
            loop-ne-none fuel n (
                emit content chunk_size chunk_overlap (pos s)
                  (window_end content chunk_size chunk_overlap (pos s)) acc),
          ))
    | no outside ↦ ground arith
  ]

-- `chunk` returns its chunks after at most as many rounds as the document has characters, if the
-- overlap is below the chunk size and is 0 or the document is of one line.
pub chunk-total_tame :
    (content : Text) (chunk_size chunk_overlap : ℕ)
    → chunk_overlap < chunk_size
    → (chunk_overlap ≡ 0) ⊎ (contains newline content ≡ false)
    → (chunks : List ChunkData) × (chunk (suc (length content)) content chunk_size chunk_overlap
        ≡ some chunks)
unfolding chunk
chunk-total_tame content chunk_size chunk_overlap smaller tame =
    let run = loop content chunk_size chunk_overlap (suc (length content)) (pos 0) ([], 0) in
    let ends =
      loop-ne-none content chunk_size chunk_overlap smaller tame (suc (length content)) 0 ([], 0)
        (omega arith) (omega arith) in
    elim (Bool-cases (is_nonempty (strip content))) [
      | inr blank ↦ ([], rw blank)
      | inl full ↦
          rw full (elim (Option-cases run) [ inl out ↦ absurd (ends out) | inr found ↦ found ])
    ]
