-- ===== src/Chunking/Simple.antt =====
-- `SimpleChunkingStrategy` of app/domain/services/chunking_service.py, over characters. Positions
-- are signed: the code subtracts the overlap with no lower bound.
pub mod Divergence
pub mod Progress
use ai_backend_api.Base.{
  ℕ, zero, suc, ◌+◌, ◌-◌, min, Bool, Option, none, some, List, [], ◌∷◌, ◌++◌, leb, ltb, ◌==◌, ◌&&◌,
  length, if◌then◌else◌,
}
use ai_backend_api.Base.Text.{Text, strip, is_nonempty, word_count}
use ai_backend_api.Base.Int.{ℤ, pos, negsuc, ◌+ℤ◌, ◌-ℤ◌, ltb_ℤ, min_ℤ, clip, py_slice}
use ai_backend_api.Chunking.Data.{ChunkData}

abbrev pub newline : ℕ
newline = 10

-- The last position from `i` on and before `j` at which `c` stands; `k` is the position of the head.
unfoldable pub last_index : ℕ → Text → (k i j : ℕ) → Option ℕ → Option ℕ
last_index c [] k i j found = found
last_index c (d ∷ s) k i j found =
    last_index c s (suc k) i j (if (d == c) && (leb i k && ltb k j) then some k else found)

-- `rfind` answers -1 where it finds nothing.
abbrev pub found_pos : Option ℕ → ℤ
found_pos none = negsuc 0
found_pos (some k) = pos k

-- `s.rfind(c, i, j)` for a text `c` of one character
unfoldable pub rfind : Text → ℕ → ℤ → ℤ → ℤ
unfolding last_index
rfind s c i j = found_pos (last_index c s 0 (clip (length s) i) (clip (length s) j) none)

module _ (content : Text) (chunk_size chunk_overlap : ℕ) where
  -- The end of the window that starts at `start`: behind the last newline in it, if there is one.
  unfoldable pub window_end : ℤ → ℤ
  window_end start =
      let end = min_ℤ (start +ℤ pos chunk_size) (pos (length content)) in
      let newline_pos = rfind content newline start end in
      if ltb_ℤ end (pos (length content)) && ltb_ℤ start newline_pos
      then newline_pos +ℤ pos 1
      else end

  -- `chunks.append(…)` and `chunk_index += 1`, unless the window is blank.
  unfoldable pub emit : ℤ → ℤ → List ChunkData × ℕ → List ChunkData × ℕ
  emit start end (chunks, chunk_index) =
      let chunk_content = strip (py_slice content start end) in
      if is_nonempty chunk_content
      then (
        chunks
            ++ record {
              content = chunk_content;
              start_char = start;
              end_char = end;
              chunk_index = chunk_index;
              token_count = word_count chunk_content;
            }
              ∷ [],
        suc chunk_index,
      )
      else (chunks, chunk_index)

  unfoldable pub next_start : ℤ → ℤ
  next_start end =
      let start = if ltb_ℤ end (pos (length content)) then end -ℤ pos chunk_overlap else end in
      if ltb_ℤ start end then start else end

  -- The `while` loop on fuel; `none` means that the fuel ran out.
  unfoldable pub loop : ℕ → ℤ → List ChunkData × ℕ → Option (List ChunkData)
  loop zero start acc = none
  loop (suc fuel) start acc =
      let end = window_end start in
      let rest = loop fuel (next_start end) (emit start end acc) in
      if ltb_ℤ start (pos (length content)) then rest else some acc.0

-- `chunk`, with the loop's fuel.
unfoldable pub chunk : ℕ → Text → ℕ → ℕ → Option (List ChunkData)
unfolding loop window_end emit next_start rfind
chunk fuel content chunk_size chunk_overlap =
    let run = loop content chunk_size chunk_overlap fuel (pos 0) ([], 0) in
    if is_nonempty (strip content) then run else some []
