-- ===== src/Provider/Chat/Deltas.antt =====
-- What a stream of the OpenAI API yields.
use ai_backend_api.Base.{
  ℕ, ◌≡◌, refl, ap, ◌∙◌, true, Option, none, some, List, [], ◌∷◌, ◌++◌, map, All,
}
use ai_backend_api.Base.Text.{Text, is_nonempty}
use ai_backend_api.Entity.Chat.{ChatMessage}
use ai_backend_api.UseCase.Chat.{concat}
use ai_backend_api.Provider.Chat.{
  OpenaiSettings, CompletionRequest, Streaming, completion_request, content_of, emitted, deltas,
  interruption, stream,
}

-- The content that a chunk carries: that of its first choice.
abbrev pub first_content : List (Option Text) → Text
first_content [] = []
first_content (content ∷ choices) = content_of content

emitted-content :
    (delta : Option Text) (rest : List Text)
    → (concat (emitted delta rest) ≡ content_of delta ++ concat rest)
      × (All (λ t. is_nonempty t ≡ true) rest
          → All (λ t. is_nonempty t ≡ true) (emitted delta rest))
unfolding concat
emitted-content none rest = (refl, λ h. h)
emitted-content (some []) rest = (refl, λ h. h)
emitted-content (some (c ∷ s)) rest = (refl, λ h. (refl, h))

deltas-content :
    (chunks : List (List (Option Text)))
    → (concat (deltas chunks) ≡ concat (map first_content chunks))
      × All (λ t. is_nonempty t ≡ true) (deltas chunks)
unfolding deltas concat
deltas-content [] = (refl, tt)
deltas-content ([] ∷ chunks) = deltas-content chunks
deltas-content ((delta ∷ choices) ∷ chunks) =
    let (same, all) = deltas-content chunks in
    let (head, kept) = emitted-content delta (deltas chunks) in
    (head ∙ ap (λ (t : Text). content_of delta ++ t) same, kept all)

-- A stream yields no empty delta and loses none of the content: what it yields, put together, is the
-- content of the chunks that the API sends, also where the API breaks off. It ends in an exception
-- exactly when the API breaks off.
pub stream_lem :
    (float : Text → Option ℕ) (settings : OpenaiSettings) (api : CompletionRequest → Streaming)
    (messages : List ChatMessage) (chunks : List (List (Option Text))) (end : Option Text)
    → api (completion_request settings messages true) ≡ Streaming.streamed chunks end
    → (concat (stream float settings api messages).0 ≡ concat (map first_content chunks))
      × All (λ t. is_nonempty t ≡ true) (stream float settings api messages).0
      × ((stream float settings api messages).1 ≡ interruption end)
unfolding stream
stream_lem float settings api messages chunks end e =
    let (same, all) = deltas-content chunks in (rw e same, rw e all, rw e refl)
