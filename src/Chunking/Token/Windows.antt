-- ===== src/Chunking/Token/Windows.antt =====
-- The windows of the loop: sizes, progress, and enough fuel.
use ai_backend_api.Base.{
  ℕ, zero, suc, ◌+◌, ◌≤◌, ◌<◌, ◌≡◌, ◌≢◌, min, Option, none, some, List, [], arith, leb, length,
  Option-cases, Bool-cases, some_inj, subst, sym, ap, ◌∙◌, refl, if◌then◌else◌, inl, inr, true,
  false,
}
use ai_backend_api.Base.Text.{Text, strip, is_nonempty}
use ai_backend_api.Base.Result.{Result, ok, err, ok_inj}
use ai_backend_api.Errors.{Exc}
use ai_backend_api.Chunking.Data.{ChunkData}
use ai_backend_api.Chunking.Token.{
  Encoder, max_tokens, effective_chunk_size, effective_overlap, next_start, emit, loop, chunk,
  chunk_tokens, encoded,
}

pub effective_bounds :
    (chunk_size chunk_overlap : ℕ)
    → (effective_chunk_size chunk_size ≤ max_tokens)
      × (effective_chunk_size chunk_size ≤ chunk_size)
      × (effective_overlap chunk_size chunk_overlap + effective_overlap chunk_size chunk_overlap
          ≤ effective_chunk_size chunk_size)
unfolding effective_overlap effective_chunk_size
effective_bounds chunk_size chunk_overlap = omega arith

module _ (encoder : Encoder) (token_ids : List ℕ) (size overlap : ℕ) (positive : 1 ≤ size)
    (half : overlap + overlap ≤ size) where
  -- The next window starts behind the start of this one, and not behind its end.
  pub next_start_bounds :
      (start : ℕ)
      → start + size < length token_ids
      → (start < next_start encoder token_ids size overlap (start + size))
        × (next_start encoder token_ids size overlap (start + size) ≤ start + size)
  unfolding next_start
  next_start_bounds start h = (ground arith, ground arith)

  -- Fuel for one round more than there are tokens left is enough.
  pub loop-ne-none :
      (fuel start : ℕ) (acc : List ChunkData × ℕ)
      → start ≤ length token_ids
      → length token_ids < fuel + start
      → loop encoder token_ids size overlap fuel start acc ≢ none
  unfolding loop
  loop-ne-none zero start acc le h = absurd (omega arith)
  loop-ne-none (suc fuel) start acc le h =
      let end = min (start + size) (length token_ids) in
      let next = next_start encoder token_ids size overlap end in
      let acc' = emit encoder token_ids size overlap start end acc in
      ground (arith, next_start_bounds start, loop-ne-none fuel next acc')

  -- A proof rule for the loop: `P` holds at the start of each round, and `Q` where it ends.
  module _ (P : ℕ → List ChunkData × ℕ → Type 0) (Q : List ChunkData × ℕ → Type 0)
      (round : (start : ℕ) (acc : List ChunkData × ℕ)
        → start + size < length token_ids
        → P start acc
        → P
            (next_start encoder token_ids size overlap (start + size))
            (emit encoder token_ids size overlap start (start + size) acc))
      (final : (start : ℕ) (acc : List ChunkData × ℕ)
        → start < length token_ids
        → length token_ids ≤ start + size
        → P start acc
        → Q (emit encoder token_ids size overlap start (length token_ids) acc))
      (empty : (acc : List ChunkData × ℕ) → P (length token_ids) acc → Q acc) where
    pub loop_ind :
        (fuel start : ℕ) (acc r : List ChunkData × ℕ)
        → start ≤ length token_ids
        → P start acc
        → loop encoder token_ids size overlap fuel start acc ≡ some r
        → Q r
    unfolding loop
    loop_ind zero start acc r le h e = absurd (cc)
    loop_ind (suc fuel) start acc r le h e =
        let end = min (start + size) (length token_ids) in
        let acc' = emit encoder token_ids size overlap start end acc in
        let next = next_start encoder token_ids size overlap end in
        elim (Bool-cases (leb (length token_ids) start)) [
          | inl done ↦
              let s : start ≡ length token_ids = ground arith in
              let here : some acc ≡ some r = ground arith in
              subst Q (some_inj here) (empty acc (subst (λ n. P n acc) s h))
          | inr more ↦
              let lt : start < length token_ids = ground arith in
              elim (Bool-cases (leb (length token_ids) end)) [
                | inl last ↦
                    let s : end ≡ length token_ids = ground arith in
                    let here : some acc' ≡ some r = ground arith in
                    let past : length token_ids ≤ start + size = ground arith in
                    subst Q (some_inj here) (
                      subst (λ n. Q (emit encoder token_ids size overlap start n acc)) (sym s)
                        (final start acc lt past h))
                | inr inner ↦
                    let within : start + size < length token_ids = ground arith in
                    let s : end ≡ start + size = ground arith in
                    let here : loop encoder token_ids size overlap fuel next acc' ≡ some r =
                      ground arith in
                    let le' : next ≤ length token_ids =
                      rw s (omega (arith, (next_start_bounds start within).1)) in
                    loop_ind fuel next acc' r le'
                      (subst
                        (λ n.
                          P (next_start encoder token_ids size overlap n)
                            (emit encoder token_ids size overlap start n acc))
                        (sym s) (round start acc within h))
                      here
              ]
        ]

abbrev pub ran : Encoder → List ℕ → ℕ → ℕ → Option (List ChunkData × ℕ)
ran encoder token_ids chunk_size chunk_overlap =
    loop encoder token_ids (effective_chunk_size chunk_size)
      (effective_overlap chunk_size chunk_overlap) (suc (length token_ids)) 0 ([], 0)

chunk_tokens_ind :
    (encoder : Encoder) (token_ids : List ℕ) (chunk_size chunk_overlap : ℕ)
    (chunks : List ChunkData) (Q : List ChunkData → Type 0)
    → chunk_tokens encoder token_ids chunk_size chunk_overlap ≡ some chunks
    → (is_nonempty token_ids ≡ false → Q [])
    → ((r : List ChunkData × ℕ) → ran encoder token_ids chunk_size chunk_overlap ≡ some r → Q r.0)
    → Q chunks
unfolding chunk_tokens
chunk_tokens_ind encoder token_ids chunk_size chunk_overlap chunks Q e empty run =
    elim (Bool-cases (is_nonempty token_ids)) [
      | inr none_left ↦
          let here : some [] ≡ some chunks = ground arith in
          subst Q (some_inj here) (empty none_left)
      | inl tokens ↦ elim (Option-cases (ran encoder token_ids chunk_size chunk_overlap)) [
        | inl out ↦ absurd (ground arith)
        | inr (r, found) ↦
            let here : some r.0 ≡ some chunks = ground arith in
            subst Q (some_inj here) (run r found)
      ]
    ]

-- `chunk` returns an empty list, for a blank text or one with no tokens, or the chunks of the loop.
module _ (encoder : Encoder) (content : Text) (chunk_size chunk_overlap : ℕ)
    (chunks : List ChunkData) where
  abbrev encoded_is : Result Exc (List ℕ) → Result Exc (Option (List ChunkData))
  encoded_is r = encoded encoder chunk_size chunk_overlap r

  encoded_ind :
      (Q : List ChunkData → Type 0) (r : Result Exc (List ℕ))
      → encoded_is r ≡ ok (some chunks)
      → ((token_ids : List ℕ) → r ≡ ok token_ids → is_nonempty token_ids ≡ false → Q [])
      → ((token_ids : List ℕ)
          → r ≡ ok token_ids
          → (p : List ChunkData × ℕ) → ran encoder token_ids chunk_size chunk_overlap ≡ some p
          → Q p.0)
      → Q chunks
  unfolding encoded
  encoded_ind Q (err x) e empty run = absurd (cc)
  encoded_ind Q (ok token_ids) e empty run =
      chunk_tokens_ind encoder token_ids chunk_size chunk_overlap chunks Q (ok_inj refl e)
        (empty token_ids refl) (run token_ids refl)

  pub chunk_ind :
      (Q : List ChunkData → Type 0)
      → chunk encoder content chunk_size chunk_overlap ≡ ok (some chunks)
      → (is_nonempty (strip content) ≡ false → Q [])
      → ((token_ids : List ℕ)
          → encoder.encode content ≡ ok token_ids
          → is_nonempty token_ids ≡ false
          → Q [])
      → ((token_ids : List ℕ)
          → encoder.encode content ≡ ok token_ids
          → (p : List ChunkData × ℕ) → ran encoder token_ids chunk_size chunk_overlap ≡ some p
          → Q p.0)
      → Q chunks
  unfolding chunk
  chunk_ind Q e blank empty run = elim (Bool-cases (is_nonempty (strip content))) [
    | inr no_text ↦
        let here : some [] ≡ some chunks = ok_inj refl (
          ap (λ b. if b then encoded_is (encoder.encode content) else ok (some [])) (sym no_text)
          ∙ e) in
        subst Q (some_inj here) (blank no_text)
    | inl text ↦
        encoded_ind Q (encoder.encode content)
          (ap (λ b. if b then encoded_is (encoder.encode content) else ok (some [])) (sym text) ∙ e)
          empty run
  ]

-- `chunk` ends on every text, for every chunk size but 0 and every overlap: it returns the empty
-- list for a blank text, raises what the encoder raises on the text, and returns a list of chunks
-- where the encoder gives tokens. The loop needs no more fuel than it has.
pub chunk-total :
    (encoder : Encoder) (content : Text) (chunk_size chunk_overlap : ℕ)
    → 1 ≤ chunk_size
    → (is_nonempty (strip content) ≡ false
        → chunk encoder content chunk_size chunk_overlap ≡ ok (some []))
      × ((e : Exc)
          → is_nonempty (strip content) ≡ true
          → encoder.encode content ≡ err e
          → chunk encoder content chunk_size chunk_overlap ≡ err e)
      × ((token_ids : List ℕ)
          → encoder.encode content ≡ ok token_ids
          → (chunks : List ChunkData) × (chunk encoder content chunk_size chunk_overlap
              ≡ ok (some chunks)))
unfolding chunk encoded chunk_tokens effective_chunk_size
chunk-total encoder content chunk_size chunk_overlap h = (
  λ blank. rw blank refl,
  λ e text raises. rw (text, raises) refl,
  λ token_ids encodes. elim (Bool-cases (is_nonempty (strip content))) [
    | inr blank ↦ ([], rw blank refl)
    | inl text ↦ elim (Option-cases (chunk_tokens encoder token_ids chunk_size chunk_overlap)) [
      | inr (chunks, found) ↦ (chunks, rw (text, encodes) (ap (λ o. ok o) found))
      | inl e ↦
          let size = effective_chunk_size chunk_size in
          let overlap = effective_overlap chunk_size chunk_overlap in
          let bounds = effective_bounds chunk_size chunk_overlap in
          absurd (
            loop-ne-none encoder token_ids size overlap (omega arith) bounds.2
              (suc (length token_ids)) 0 ([], 0) (omega arith) (omega arith) (ground arith))
    ]
  ],
)
