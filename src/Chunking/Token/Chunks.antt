-- ===== src/Chunking/Token/Chunks.antt =====
-- The chunks that `chunk` returns: their shape, their positions, and that no text is lost.
use ai_backend_api.Base.{
  ℕ, suc, ◌+◌, ◌-◌, ◌≤◌, ◌<◌, ◌≡◌, min, refl, some, List, [], ◌∷◌, ◌++◌, arith, length, drop,
  Bool-cases, inl, inr, true, length-append, length-take, length-drop,
}
use ai_backend_api.Base.Text.{Text, strip, is_nonempty, slice}
use ai_backend_api.Chunking.Data.{ChunkData}
use ai_backend_api.Base.Int.{pos, ltb_ℤ}
use ai_backend_api.Base.Result.{ok}
use ai_backend_api.Chunking.Token.{
  Encoder, max_tokens, effective_chunk_size, effective_overlap, window_chunk, emit, chunk,
}
use ai_backend_api.Chunking.Token.Windows.{effective_bounds, loop_ind, chunk_ind}

-- `chunks` are numbered from `k` on; each has a text and at least one token, at most `size` of them,
-- and its end is greater than its start.
abbrev pub AreChunks : ℕ → ℕ → List ChunkData → Type 0
AreChunks size k [] = Unit
AreChunks size k (c ∷ cs) =
    ((c.chunk_index ≡ k)
      × (is_nonempty c.content ≡ true)
      × (1 ≤ c.token_count)
      × (c.token_count ≤ size)
      × (ltb_ℤ c.start_char c.end_char ≡ true))
    × AreChunks size (suc k) cs

AreChunks-snoc :
    (size k : ℕ) (cs : List ChunkData) (c : ChunkData)
    → AreChunks size k cs
    → (c.chunk_index ≡ k + length cs)
    → (is_nonempty c.content ≡ true)
    → (1 ≤ c.token_count)
    → (c.token_count ≤ size)
    → (ltb_ℤ c.start_char c.end_char ≡ true)
    → AreChunks size k (cs ++ c ∷ [])
AreChunks-snoc size k [] c h i n a b o = ((omega arith, n, a, b, o), tt)
AreChunks-snoc size k (d ∷ cs) c h i n a b o =
    (h.0, AreChunks-snoc size (suc k) cs c h.1 (omega arith) n a b o)

nonempty-length : (t : Text) → is_nonempty (strip t) ≡ true → 1 ≤ length t
unfolding strip
nonempty-length [] h = absurd (cc)
nonempty-length (c ∷ t) h = omega arith

pos-ltb : (m n : ℕ) → 1 ≤ n → ltb_ℤ (pos m) (pos (m + n)) ≡ true
pos-ltb m n h = ground (arith, h)

-- The loop's invariant: the chunks so far are well shaped and the next index is their number.
abbrev AccShape : ℕ → List ChunkData × ℕ → Type 0
AccShape size acc = AreChunks size 0 acc.0 × (acc.1 ≡ length acc.0)

module _ (encoder : Encoder) (token_ids : List ℕ) (size overlap : ℕ) (positive : 1 ≤ size)
    (half : overlap + overlap ≤ size) where
  emit-AccShape :
      (start end : ℕ) (acc : List ChunkData × ℕ)
      → start < length token_ids
      → start < end
      → end ≤ start + size
      → AccShape size acc
      → AccShape size (emit encoder token_ids size overlap start end acc)
  unfolding emit
  emit-AccShape start end (cs, k) lt lt' le (h, e) =
      let c = window_chunk encoder token_ids size overlap start end k in
      let len = length-take (end - start) (drop start token_ids) in
      let len' = length-drop start token_ids in
      elim (Bool-cases (is_nonempty (strip (encoder.decode (slice token_ids start end))))) [
        | inl full ↦ rw full (
          AreChunks-snoc size 0 cs c h (omega arith) full (omega arith) (omega arith)
              (pos-ltb _ _ (nonempty-length (encoder.decode (slice token_ids start end)) full)),
          omega (arith, length-append cs (c ∷ [])),
        )
        | inr blank ↦ rw blank (h, e)
      ]

-- Every chunk that `chunk` returns has a text, at least one token and at most the chunk size and
-- 8000, and its end is greater than its start; the chunks are numbered 0, 1, 2 and so on.
pub chunk-AreChunks :
    (encoder : Encoder) (content : Text) (chunk_size chunk_overlap : ℕ) (chunks : List ChunkData)
    → 1 ≤ chunk_size
    → chunk encoder content chunk_size chunk_overlap ≡ ok (some chunks)
    → AreChunks (min chunk_size max_tokens) 0 chunks
unfolding chunk effective_chunk_size
chunk-AreChunks encoder content chunk_size chunk_overlap chunks positive e =
    let size = min chunk_size max_tokens in
    let overlap = effective_overlap chunk_size chunk_overlap in
    let bounds = effective_bounds chunk_size chunk_overlap in
    chunk_ind encoder content chunk_size chunk_overlap chunks (AreChunks size 0) e (λ _. tt)
      (λ token_ids encodes empty. tt)
      (λ token_ids encodes r ran.
        (loop_ind encoder token_ids size overlap (omega arith) bounds.2
          (λ start acc. AccShape size acc) (AccShape size)
          (λ start acc lt h.
            emit-AccShape encoder token_ids size overlap (omega arith) bounds.2 start (start + size)
              acc (omega arith) (omega arith) (omega arith) h)
          (λ start acc lt last h.
            emit-AccShape encoder token_ids size overlap (omega arith) bounds.2 start
              (length token_ids) acc lt (omega arith) (omega arith) h)
          (λ acc h. h) (suc (length token_ids)) 0 ([], 0) r (omega arith) (tt, refl) ran).0)
