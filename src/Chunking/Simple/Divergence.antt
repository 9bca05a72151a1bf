-- ===== src/Chunking/Simple/Divergence.antt =====
-- Inputs on which `SimpleChunkingStrategy.chunk` never returns: a first line shorter than the
-- overlap, in front of a long paragraph. The window ends behind the line, the overlap takes the
-- start below zero, a negative start means a position from the document's end, the search for a
-- newline answers -1, which is larger, and so the window ends at 0 and the start is the same again.
use ai_backend_api.Base.{
  ℕ, zero, suc, ◌+◌, ◌-◌, ◌≤◌, ◌<◌, ◌≡◌, refl, ap, ◌∙◌, Option, none, some, List, [], ◌∷◌, ◌++◌,
  arith, length, true, false,
}
use ai_backend_api.Base.Text.{Text, strip, is_nonempty, contains}
use ai_backend_api.Base.Int.{ℤ, pos, negsuc, clip, min_ℤ, ◌+ℤ◌}
use ai_backend_api.Chunking.Data.{ChunkData}
use ai_backend_api.Chunking.Simple.{
  newline, found_pos, last_index, rfind, window_end, emit, next_start, loop, chunk,
}

last_index-empty :
    (c : ℕ) (s : Text) (k i j : ℕ) (found : Option ℕ) → j ≤ i → last_index c s k i j found ≡ found
unfolding last_index
last_index-empty c [] k i j found h = refl
last_index-empty c (d ∷ s) k i j found h = last_index-empty c s (suc k) i j _ h ∙ ground arith

pub last_index-absent :
    (c : ℕ) (s : Text) (k i j : ℕ) (found : Option ℕ)
    → contains c s ≡ false
    → last_index c s k i j found ≡ found
unfolding last_index
last_index-absent c [] k i j found h = refl
last_index-absent c (d ∷ s) k i j found h =
    last_index-absent c s (suc k) i j _ (ground arith) ∙ ground arith

last_index-append :
    (c : ℕ) (s t : Text) (k i j : ℕ) (found : Option ℕ)
    → last_index c (s ++ t) k i j found
      ≡ last_index c t (k + length s) i j (last_index c s k i j found)
unfolding last_index
last_index-append c [] t k i j found = let e : k + 0 ≡ k = omega arith in rw e refl
last_index-append c (d ∷ s) t k i j found =
    let e : k + suc (length s) ≡ suc k + length s = omega arith in
    rw e (last_index-append c s t (suc k) i j _)

rfind-empty :
    (s : Text) (c : ℕ) (i j : ℤ) → clip (length s) j ≤ clip (length s) i → rfind s c i j ≡ negsuc 0
unfolding rfind
rfind-empty s c i j h =
    ap found_pos (last_index-empty c s 0 (clip (length s) i) (clip (length s) j) none h)

module _ (content : Text) (chunk_size m : ℕ) (fits : suc (suc m) ≤ chunk_size)
    (longer : chunk_size ≤ length content) where
  abbrev overlap : ℕ
  overlap = suc (suc m)

  -- From a start of -2 or less, as far as the overlap goes, the window ends at 0.
  window_end-negative :
      (k : ℕ) → k ≤ m → window_end content chunk_size overlap (negsuc (suc k)) ≡ pos 0
  unfolding window_end
  window_end-negative k h =
      let start = negsuc (suc k) in
      let room = chunk_size - suc (suc k) in
      let e : min_ℤ (start +ℤ pos chunk_size) (pos (length content)) ≡ pos room = ground arith in
      let r : rfind content newline start (pos room) ≡ negsuc 0 =
        rfind-empty content newline start (pos room) (omega arith) in
      rw (e, r) (ground arith)

  next_start-zero : next_start content chunk_size overlap (pos 0) ≡ negsuc (suc m)
  unfolding next_start
  next_start-zero = ground arith

  -- From such a start the loop never ends.
  loop-negative :
      (fuel k : ℕ) (acc : List ChunkData × ℕ)
      → k ≤ m
      → loop content chunk_size overlap fuel (negsuc (suc k)) acc ≡ none
  unfolding loop
  loop-negative zero k acc h = refl
  loop-negative (suc fuel) k acc h =
      rw (window_end-negative k h, next_start-zero)
        (ground (
          arith,
          loop-negative fuel m (emit content chunk_size overlap (negsuc (suc k)) (pos 0) acc),
        ))

loop-negative_from :
    (content : Text) (chunk_size chunk_overlap k fuel : ℕ) (acc : List ChunkData × ℕ)
    → chunk_overlap ≤ chunk_size
    → chunk_size ≤ length content
    → k + 2 ≤ chunk_overlap
    → loop content chunk_size chunk_overlap fuel (negsuc (suc k)) acc ≡ none
loop-negative_from content chunk_size zero k fuel acc fits longer h = absurd (omega arith)
loop-negative_from content chunk_size (suc zero) k fuel acc fits longer h = absurd (omega arith)
loop-negative_from content chunk_size (suc (suc m)) k fuel acc fits longer h =
    loop-negative content chunk_size m fits longer fuel k acc (omega arith)

module _ (title body : Text) (chunk_size chunk_overlap : ℕ) (fits : chunk_overlap ≤ chunk_size)
    (longer : chunk_size < length (title ++ newline ∷ body)) (nonempty : 1 ≤ length title)
    (short : length title + 3 ≤ chunk_overlap) (paragraph : contains newline body ≡ false) where
  abbrev content : Text
  content = title ++ newline ∷ body

  rfind-title : rfind content newline (pos 0) (pos chunk_size) ≡ pos (length title)
  unfolding rfind last_index
  rfind-title = ap found_pos {y = some (length title)} (
      last_index-append newline title (newline ∷ body) 0 0 chunk_size none
      ∙ (last_index-absent newline body _ 0 chunk_size _ paragraph ∙ ground arith))

  window_end-title : window_end content chunk_size chunk_overlap (pos 0) ≡ pos (length title + 1)
  unfolding window_end
  window_end-title =
      let e : min_ℤ (pos 0 +ℤ pos chunk_size) (pos (length content)) ≡ pos chunk_size =
        ground arith in
      rw (e, rfind-title) (ground arith)

  next_start-title :
      next_start content chunk_size chunk_overlap (pos (length title + 1))
      ≡ negsuc (suc (chunk_overlap - (length title + 3)))
  unfolding next_start
  next_start-title = ground arith

  loop-title :
      (fuel : ℕ) (acc : List ChunkData × ℕ)
      → loop content chunk_size chunk_overlap fuel (pos 0) acc ≡ none
  unfolding loop
  loop-title zero acc = refl
  loop-title (suc fuel) acc =
      let k = chunk_overlap - (length title + 3) in
      let acc' = emit content chunk_size chunk_overlap (pos 0) (pos (length title + 1)) acc in
      let rest =
        loop-negative_from content chunk_size chunk_overlap k fuel acc' fits (omega arith)
          (omega arith) in
      rw (window_end-title, next_start-title) (ground (arith, rest))

  -- A document of a first line (a title) and one long paragraph is never chunked, if the document
  -- is longer than the chunk size, the title has a character, it is at least three characters
  -- shorter than the overlap, and the overlap is at most the chunk size: no number of rounds is
  -- enough for the loop.
  pub chunk-diverges :
      (fuel : ℕ)
      → is_nonempty (strip content) ≡ true
      → chunk fuel content chunk_size chunk_overlap ≡ none
  unfolding chunk
  chunk-diverges fuel h = rw h (loop-title fuel ([], 0))
