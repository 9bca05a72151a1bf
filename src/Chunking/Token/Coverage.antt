-- ===== src/Chunking/Token/Coverage.antt =====
-- Where the chunks of `chunk` stand in the document, and that no text is lost. `tiktoken` decodes
-- what it encoded, and it decodes parts of the tokens of a text into parts of the text where none
-- of its characters is spread over two tokens, as in a text of ASCII.
use ai_backend_api.Base.{
  ℕ, suc, ◌+◌, ◌-◌, ◌≤◌, ◌<◌, ◌≡◌, ◌⊎◌, ◌∙◌, sym, ap, subst, some, List, [], ◌∷◌, ◌++◌, arith,
  length, take, drop, get_elem?, Bool-cases, inl, inr, false, length-append, take-append,
  drop-append, take-all, get_elem?-append_left, get_elem?-append_right, append_assoc, All,
  All-append, dec_lt,
}
use mathlib.Core.Bool.{true≢false}
use ai_backend_api.Base.Text.{Text, strip, is_nonempty, is_space, slice, nonempty-strip}
use ai_backend_api.Base.Int.{pos, py_slice, ◌≤ℤ◌}
use ai_backend_api.Base.Result.{ok, ok_inj}
use ai_backend_api.Chunking.Data.{ChunkData}
use ai_backend_api.Chunking.Token.{
  Encoder, effective_chunk_size, effective_overlap, window_chunk, emit, loop, chunk,
}
use ai_backend_api.Chunking.Token.Windows.{effective_bounds, loop_ind, chunk_ind, next_start_bounds}

-- The tokens of a text, each of which ends where a character ends: a beginning of them decodes to a
-- beginning of the text, and a window to what stands between two beginnings.
pub record IsExact (encoder : Encoder) (content : Text) (token_ids : List ℕ) : Type 0 where
  pub encodes : encoder.encode content ≡ ok token_ids
  pub decode-nil : encoder.decode [] ≡ []
  pub decode-window :
      (i j : ℕ)
      → i ≤ j
      → encoder.decode (take j token_ids)
        ≡ encoder.decode (take i token_ids) ++ encoder.decode (slice token_ids i j)
  pub decode-rest :
      (i : ℕ)
      → encoder.decode token_ids
        ≡ encoder.decode (take i token_ids) ++ encoder.decode (drop i token_ids)
  pub decode-encode : encoder.decode token_ids ≡ content

-- Position `q` of the document lies inside one of the chunks.
abbrev pub Inside : ℕ → List ChunkData → Type 0
Inside q [] = ⊥
Inside q (c ∷ cs) = ((c.start_char ≤ℤ pos q) × (pos (suc q) ≤ℤ c.end_char)) ⊎ Inside q cs

Inside-snoc_old :
    (q : ℕ) (cs : List ChunkData) (c : ChunkData) → Inside q cs → Inside q (cs ++ c ∷ [])
Inside-snoc_old q [] c h = elim h [ ]
Inside-snoc_old q (d ∷ cs) c (inl h) = inl h
Inside-snoc_old q (d ∷ cs) c (inr h) = inr (Inside-snoc_old q cs c h)

Inside-snoc_new :
    (q : ℕ) (cs : List ChunkData) (c : ChunkData)
    → c.start_char ≤ℤ pos q
    → pos (suc q) ≤ℤ c.end_char
    → Inside q (cs ++ c ∷ [])
Inside-snoc_new q [] c a b = inl (a, b)
Inside-snoc_new q (d ∷ cs) c a b = inr (Inside-snoc_new q cs c a b)

-- Before `bound`, all that is no white space lies inside a chunk.
abbrev pub Covers : Text → ℕ → List ChunkData → Type 0
Covers content bound chunks =
    (q ch : ℕ) → q < bound → get_elem? content q ≡ some ch → is_space ch ≡ false → Inside q chunks

-- The chunk's text is what the document has between the chunk's ends, stripped.
abbrev pub IsAt : Text → ChunkData → Type 0
IsAt content c = c.content ≡ strip (py_slice content c.start_char c.end_char)

middle_get :
    (xs ys zs : Text) (q ch : ℕ)
    → length xs ≤ q
    → q < length xs + length ys
    → get_elem? (xs ++ (ys ++ zs)) q ≡ some ch
    → get_elem? ys (q - length xs) ≡ some ch
middle_get xs ys zs q ch a b e =
    let at : q ≡ length xs + (q - length xs) = omega arith in
    sym (get_elem?-append_left ys zs (q - length xs) (omega arith))
    ∙ (sym (get_elem?-append_right xs (ys ++ zs) (q - length xs))
        ∙ (ap (get_elem? (xs ++ (ys ++ zs))) (sym at) ∙ e))

middle_slice : (xs ys zs : Text) → slice (xs ++ (ys ++ zs)) (length xs) (length xs + length ys) ≡ ys
middle_slice xs ys zs =
    let n : length xs + length ys - length xs ≡ length ys = omega arith in
    rw (n, drop-append xs (ys ++ zs)) (take-append ys zs)

module _ (encoder : Encoder) (content : Text) (token_ids : List ℕ)
    (exact : IsExact encoder content token_ids) (size overlap : ℕ) where
  abbrev before : ℕ → Text
  before n = encoder.decode (take n token_ids)

  before_window :
      (start end : ℕ)
      → start ≤ end
      → before end ≡ before start ++ encoder.decode (slice token_ids start end)
  before_window start end le = exact.decode-window start end le

  around_window :
      (start end : ℕ)
      → start ≤ end
      → content
        ≡ before start
          ++ (encoder.decode (slice token_ids start end) ++ encoder.decode (drop end token_ids))
  around_window start end le =
      sym exact.decode-encode
      ∙ (exact.decode-rest end
          ∙ (ap (λ (t : Text). t ++ encoder.decode (drop end token_ids))
                (before_window start end le)
              ∙ append_assoc (before start) _ _))

  length-before :
      (start end : ℕ)
      → start ≤ end
      → length (before end)
        ≡ length (before start) + length (encoder.decode (slice token_ids start end))
  length-before start end le =
      ap length (before_window start end le) ∙ length-append (before start) _

  emit-Covers :
      (start end : ℕ) (acc : List ChunkData × ℕ)
      → start ≤ end
      → Covers content (length (before start)) acc.0
      → Covers content (length (before end)) (emit encoder token_ids size overlap start end acc).0
  unfolding emit
  emit-Covers start end (cs, k) le h q ch lt at n =
      let text = encoder.decode (slice token_ids start end) in
      let c = window_chunk encoder token_ids size overlap start end k in
      let len = length-before start end le in
      let rest = encoder.decode (drop end token_ids) in
      let in_window = λ (le_q : length (before start) ≤ q).
        middle_get (before start) text rest q ch le_q (omega arith)
          (rw (around_window start end le) at at) in
      elim (Bool-cases (is_nonempty (strip text))) [
        | inl full ↦ rw full (elim (dec_lt q (length (before start))) [
          | yes old ↦ Inside-snoc_old q cs c (h q ch old at n)
          | no new ↦ Inside-snoc_new q cs c (omega arith) (omega arith)
        ])
        | inr blank ↦ rw blank (elim (dec_lt q (length (before start))) [
          | yes old ↦ h q ch old at n
          | no new ↦
              absurd
                (true≢false (sym (nonempty-strip ch text _ (in_window (omega arith)) n) ∙ blank))
        ])
      ]

  emit-IsAt :
      (start end : ℕ) (acc : List ChunkData × ℕ)
      → start ≤ end
      → All (IsAt content) acc.0
      → All (IsAt content) (emit encoder token_ids size overlap start end acc).0
  unfolding emit
  emit-IsAt start end (cs, k) le h =
      let text = encoder.decode (slice token_ids start end) in
      let rest = encoder.decode (drop end token_ids) in
      let c = window_chunk encoder token_ids size overlap start end k in
      let at = ap strip (
        sym (middle_slice (before start) text rest)
        ∙ ap (λ (t : Text). slice t (length (before start)) (length (before start) + length text))
            (sym (around_window start end le))) in
      elim (Bool-cases (is_nonempty (strip text))) [
        | inl full ↦ rw full (All-append (IsAt content) cs (c ∷ []) h (at, tt))
        | inr blank ↦ rw blank h
      ]

  Covers-mono :
      (m n : ℕ) (cs : List ChunkData)
      → n ≤ m
      → Covers content (length (before m)) cs
      → Covers content (length (before n)) cs
  Covers-mono m n cs le h q ch lt = h q ch (omega (arith, length-before n m le))

  length-before-zero : length (before 0) ≡ 0
  length-before-zero = ap length exact.decode-nil

  length-before-all : length (before (length token_ids)) ≡ length content
  length-before-all = ap length (
      ap encoder.decode (take-all (length token_ids) token_ids (omega arith)) ∙ exact.decode-encode)

  empty-Covers :
      (is_nonempty (strip content) ≡ false) ⊎ (is_nonempty token_ids ≡ false)
      → Covers content (length content) []
  empty-Covers (inl blank) q ch lt at n =
      true≢false (sym (nonempty-strip ch content q at n) ∙ blank)
  empty-Covers (inr no_tokens) q ch lt at n =
      let z : length token_ids ≡ 0 = ground arith in
      let none_before : length (before (length token_ids)) ≡ 0 = rw z length-before-zero in
      omega (arith, length-before-all)

  -- What holds of the loop's chunks at the start of a round.
  abbrev AccCovers : ℕ → List ChunkData × ℕ → Type 0
  AccCovers start acc = All (IsAt content) acc.0 × Covers content (length (before start)) acc.0

  abbrev EndCovers : List ChunkData × ℕ → Type 0
  EndCovers acc = All (IsAt content) acc.0 × Covers content (length content) acc.0

  emit-AccCovers :
      (start end : ℕ) (acc : List ChunkData × ℕ)
      → start ≤ end
      → AccCovers start acc
      → AccCovers end (emit encoder token_ids size overlap start end acc)
  emit-AccCovers start end acc le (a, c) =
      (emit-IsAt start end acc le a, emit-Covers start end acc le c)

  AccCovers-end : (acc : List ChunkData × ℕ) → AccCovers (length token_ids) acc → EndCovers acc
  AccCovers-end acc (a, c) = (a, λ q ch lt. c q ch (omega (arith, length-before-all)))

  loop-EndCovers :
      (fuel : ℕ) (r : List ChunkData × ℕ)
      → 1 ≤ size
      → overlap + overlap ≤ size
      → loop encoder token_ids size overlap fuel 0 ([], 0) ≡ some r
      → EndCovers r
  loop-EndCovers fuel r positive half =
      loop_ind encoder token_ids size overlap positive half AccCovers EndCovers
        (λ start acc lt h.
          let (a, c) = emit-AccCovers start (start + size) acc (omega arith) h in
          (
            a,
            Covers-mono (start + size) _ _
                (next_start_bounds encoder token_ids size overlap positive half start lt).1 c,
          ))
        (λ start acc lt last h.
          AccCovers-end (emit encoder token_ids size overlap start (length token_ids) acc)
            (emit-AccCovers start (length token_ids) acc (omega arith) h))
        AccCovers-end fuel 0 ([], 0) r (omega arith)
        (tt, λ q ch lt at n. absurd (omega (arith, length-before-zero)))

-- For a text whose tokens are decoded exactly, which holds where no character is spread over two
-- tokens: the chunks hold exactly what stands in it between their ends, stripped; and every
-- character of it that is no white space lies inside a chunk.
pub chunk-Covers :
    (encoder : Encoder) (content : Text) (token_ids : List ℕ) (chunk_size chunk_overlap : ℕ)
    (chunks : List ChunkData)
    → IsExact encoder content token_ids
    → 1 ≤ chunk_size
    → chunk encoder content chunk_size chunk_overlap ≡ ok (some chunks)
    → All (IsAt content) chunks × Covers content (length content) chunks
unfolding effective_chunk_size
chunk-Covers encoder content token_ids chunk_size chunk_overlap chunks exact positive e =
    let size = effective_chunk_size chunk_size in
    let overlap = effective_overlap chunk_size chunk_overlap in
    let bounds = effective_bounds chunk_size chunk_overlap in
    chunk_ind encoder content chunk_size chunk_overlap chunks
      (λ cs. All (IsAt content) cs × Covers content (length content) cs) e
      (λ blank. (tt, empty-Covers encoder content token_ids exact size overlap (inl blank)))
      (λ ids encodes empty. (
        tt,
        empty-Covers encoder content token_ids exact size overlap
            (inr (subst (λ l. is_nonempty l ≡ false) (ok_inj encodes exact.encodes) empty)),
      ))
      (λ ids encodes r ran.
        loop-EndCovers encoder content token_ids exact size overlap (suc (length token_ids)) r
          (omega arith) bounds.2
          (subst (λ l. loop encoder l size overlap (suc (length l)) 0 ([], 0) ≡ some r)
            (ok_inj encodes exact.encodes) ran))
