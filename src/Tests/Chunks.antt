-- ===== src/Tests/Chunks.antt =====
-- Examples on the chunking strategies.
use ai_backend_api.Base.{
  ℕ, ◌≡◌, refl, sym, none, some, List, [], ◌∷◌, ◌++◌, length, arith, All, min, true, false,
  take-split, take-append-drop,
}
use ai_backend_api.Base.Text.{Text, codes, strip, is_nonempty}
use ai_backend_api.Base.Int.{pos}
use ai_backend_api.Base.Result.{ok, err}
use ai_backend_api.Errors.{Exc}
use ai_backend_api.Chunking.Data.{ChunkData}
use ai_backend_api.Chunking.Token
use ai_backend_api.Chunking.Token.{Encoder}
use ai_backend_api.Chunking.Token.Windows.{chunk-total}
use ai_backend_api.Chunking.Token.Chunks.{AreChunks, chunk-AreChunks}
use ai_backend_api.Chunking.Token.Coverage.{IsExact, IsAt, Covers, chunk-Covers}
use ai_backend_api.Chunking.Simple
use ai_backend_api.Chunking.Simple.Divergence.{chunk-diverges}

-- An encoder with one token for each character.
abbrev characters : Encoder
characters = record { encode = λ t. ok t; decode = λ ids. ids }

abbrev text : Text
text = codes "ab cd"

abbrev text_chunks : List ChunkData
text_chunks =
    record {
      content = codes "ab";
      start_char = pos 0;
      end_char = pos 3;
      chunk_index = 0;
      token_count = 3;
    }
    ∷ record {
      content = codes "cd";
      start_char = pos 2;
      end_char = pos 5;
      chunk_index = 1;
      token_count = 3;
    }
    ∷ []

text_chunks_lem : Token.chunk characters text 3 1 ≡ ok (some text_chunks)
unfolding Token.chunk Token.encoded strip
text_chunks_lem = refl

chunk-total_example :
    (is_nonempty (strip text) ≡ false → Token.chunk characters text 3 1 ≡ ok (some []))
    × ((e : Exc)
        → is_nonempty (strip text) ≡ true
        → characters.encode text ≡ err e
        → Token.chunk characters text 3 1 ≡ err e)
    × ((token_ids : List ℕ)
        → characters.encode text ≡ ok token_ids
        → (chunks : List ChunkData) × (Token.chunk characters text 3 1 ≡ ok (some chunks)))
chunk-total_example = chunk-total characters text 3 1 (omega arith)

chunk-AreChunks_example : AreChunks (min 3 8000) 0 text_chunks
chunk-AreChunks_example =
    chunk-AreChunks characters text 3 1 text_chunks (omega arith) text_chunks_lem

characters-IsExact : IsExact characters text text
characters-IsExact = record {
  encodes = refl;
  decode-nil = refl;
  decode-window = λ i j le. take-split i j text le;
  decode-rest = λ i. sym (take-append-drop i text);
  decode-encode = refl;
}

chunk-Covers_example : All (IsAt text) text_chunks × Covers text (length text) text_chunks
chunk-Covers_example =
    chunk-Covers characters text text 3 1 text_chunks characters-IsExact (omega arith)
      text_chunks_lem

abbrev title : Text
title = codes "Hi"

abbrev body : Text
body = codes "a paragraph"

chunk-diverges_example : Simple.chunk 100 (title ++ 10 ∷ body) 8 6 ≡ none
unfolding strip
chunk-diverges_example =
    chunk-diverges title body 8 6 (omega arith) (omega arith) (omega arith) (omega arith) refl 100
      refl
