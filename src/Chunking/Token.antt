-- ===== src/Chunking/Token.antt =====
-- app/domain/services/token_aware_chunking.py. `tiktoken` is a parameter: how it encodes a text
-- into token ids, and decodes ids into text. Sizes are natural numbers, as the settings of the
-- program demand (chunk_size ≥ 100, chunk_overlap ≥ 0).
pub mod Windows
pub mod Chunks
pub mod Coverage
use ai_backend_api.Base.{
  ℕ, zero, suc, ◌+◌, ◌-◌, ◌/◌, min, Bool, Option, none, some, List, [], ◌∷◌, leb, length, take,
  ◌++◌, if◌then◌else◌,
}
use ai_backend_api.Base.Text.{Text, strip, is_nonempty, slice}
use ai_backend_api.Chunking.Data.{ChunkData}
use ai_backend_api.Base.Int.{pos}
use mathlib.Core.Option
use ai_backend_api.Base.Result.{Result, ok, err}
use ai_backend_api.Errors.{Exc}

pub record Encoder : Type 0 where
  -- It raises ValueError on a text with a special token.
  pub encode : Text → Result Exc (List ℕ)
  pub decode : List ℕ → Text

-- `_MAX_TOKENS`
abbrev pub max_tokens : ℕ
max_tokens = 8000

unfoldable pub effective_chunk_size : ℕ → ℕ
effective_chunk_size chunk_size = min chunk_size max_tokens

unfoldable pub effective_overlap : ℕ → ℕ → ℕ
unfolding effective_chunk_size
effective_overlap chunk_size chunk_overlap = min chunk_overlap (effective_chunk_size chunk_size / 2)

module _ (encoder : Encoder) (token_ids : List ℕ) (size overlap : ℕ) where
  -- The chunk of the window from `start` to `end`.
  unfoldable pub window_chunk : ℕ → ℕ → ℕ → ChunkData
  window_chunk start end chunk_index =
      let chunk_text = encoder.decode (slice token_ids start end) in
      let start_char = length (encoder.decode (take start token_ids)) in
      record {
        content = strip chunk_text;
        start_char = pos start_char;
        end_char = pos (start_char + length chunk_text);
        chunk_index = chunk_index;
        token_count = length (slice token_ids start end);
      }

  -- The `if chunk_text.strip()` block: what becomes of the chunks and of the next index.
  unfoldable pub emit : ℕ → ℕ → List ChunkData × ℕ → List ChunkData × ℕ
  unfolding window_chunk
  emit start end (chunks, chunk_index) =
      if is_nonempty (strip (encoder.decode (slice token_ids start end)))
      then (chunks ++ window_chunk start end chunk_index ∷ [], suc chunk_index)
      else (chunks, chunk_index)

  -- `start = end - effective_overlap`, and the guard against an endless loop.
  unfoldable pub next_start : ℕ → ℕ
  next_start end = let start = end - overlap in if leb end start then end else start

  -- The `while` loop on fuel; `none` means that the fuel ran out.
  unfoldable pub loop : ℕ → ℕ → List ChunkData × ℕ → Option (List ChunkData × ℕ)
  loop zero start acc = none
  loop (suc fuel) start acc =
      let end = min (start + size) (length token_ids) in
      let rest = loop fuel (next_start end) (emit start end acc) in
      if leb (length token_ids) start
      then some acc
      else if leb (length token_ids) end
      then some (emit start end acc)
      else rest

-- What follows the encoding: one round more than there are tokens is enough fuel (`chunk-total`).
unfoldable pub chunk_tokens : Encoder → List ℕ → ℕ → ℕ → Option (List ChunkData)
unfolding loop emit next_start effective_overlap
chunk_tokens encoder token_ids chunk_size chunk_overlap =
    let run =
      loop encoder token_ids (effective_chunk_size chunk_size)
        (effective_overlap chunk_size chunk_overlap) (suc (length token_ids)) 0 ([], 0) in
    if is_nonempty token_ids then Option.map (λ r. r.0) run else some []

unfoldable pub encoded :
    Encoder → ℕ → ℕ → Result Exc (List ℕ) → Result Exc (Option (List ChunkData))
unfolding chunk_tokens
encoded encoder chunk_size chunk_overlap (err e) = err e
encoded encoder chunk_size chunk_overlap (ok token_ids) =
    ok (chunk_tokens encoder token_ids chunk_size chunk_overlap)

-- `chunk`; None would mean that the fuel ran out.
unfoldable pub chunk : Encoder → Text → ℕ → ℕ → Result Exc (Option (List ChunkData))
unfolding encoded
chunk encoder content chunk_size chunk_overlap =
    if is_nonempty (strip content)
    then encoded encoder chunk_size chunk_overlap (encoder.encode content)
    else ok (some [])
