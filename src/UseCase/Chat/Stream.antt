-- ===== src/UseCase/Chat/Stream.antt =====
-- The two ways to answer a chat request, and a stream whose consumer leaves.
use ai_backend_api.Base.{
  ℕ, Option, none, some, List, [], ◌∷◌, ◌++◌, append-nil, map, take, le→leb, ◌≤◌, length, ◌≡◌, refl,
  sym, ap, ◌∙◌,
}
use ai_backend_api.Base.Text.{Text, codes}
use ai_backend_api.Base.Result.{ok}
use ai_backend_api.Entity.Values.{UserId}
use ai_backend_api.Entity.Chat.{SearchResult, ChatMessage, MessageRole, ChatResponse}
use ai_backend_api.Exec.{◌>>=◌}
use ai_backend_api.Service.Prompt.{message_new}
use ai_backend_api.UseCase.Chat.{
  ChatBackend, ChatRequest, ChatResponseDto, delta_chunk, StreamChunk, StreamEnd, setup, execute,
  stream, run_stream, chunks_of, concat, build_sources, response_dto, prompt_count, save_exchange,
  final_chunk,
}

-- The text that a consumer puts together.
unfoldable pub shown : List StreamChunk → Text
shown [] = []
shown (c ∷ cs) = c.content ++ shown cs

shown-deltas :
    (deltas : List Text) (last : StreamChunk)
    → last.content ≡ []
    → shown (map delta_chunk deltas ++ (last ∷ [])) ≡ concat deltas
unfolding shown concat
shown-deltas [] last h = append-nil last.content ∙ h
shown-deltas (d ∷ ds) last h = ap (λ (l : Text). d ++ l) (shown-deltas ds last h)

module _ (backend : ChatBackend) where
  -- If the provider completes a prompt with a message of the assistant, and streams for it deltas
  -- that concatenate to this message and leaves the same state, then from a state in which the
  -- request can be set up and the messages can be saved, both methods leave the same state, the
  -- stream ends, its chunks show the text that `execute` answers, and its last chunk has the
  -- sources of the answer.
  pub stream-execute :
      (request : ChatRequest) (s s1 s2 s3 : backend.State) (used : List SearchResult)
      (user : Option UserId) (messages : List ChatMessage) (response : ChatResponse)
      (deltas : List Text)
      → setup backend request s ≡ (ok (used, user, messages), s1)
      → backend.complete messages s1 ≡ (ok response, s2)
      → backend.stream messages s1 ≡ ((deltas, none), s2)
      → response.message ≡ message_new MessageRole.assistant (concat deltas)
      → save_exchange backend user
          (message_new MessageRole.user request.message)
          response.message
          s2
        ≡ (ok tt, s3)
      → (answer : ChatResponseDto) × (execute backend request s ≡ (ok answer, s3))
        × (chunks : List StreamChunk) × (stream backend none request s
            ≡ ((chunks, StreamEnd.finished), s3))
        × (shown chunks ≡ answer.message)
        × (front : List StreamChunk) × (last : StreamChunk) × (chunks ≡ front ++ (last ∷ []))
        × (last.sources ≡ some answer.sources)
  unfolding execute stream run_stream chunks_of response_dto ◌>>=◌
  stream-execute request s s1 s2 s3 used user messages response deltas prepared completed streamed
        same saved =
      let saved_stream : save_exchange backend user (message_new MessageRole.user request.message)
            (message_new MessageRole.assistant (concat deltas)) s2
          ≡ (ok tt, s3) =
        ap (λ m. save_exchange backend user (message_new MessageRole.user request.message) m s2)
          (sym same)
        ∙ saved in
      (
        response_dto used response,
        rw (prepared, completed, saved) refl,
        chunks_of backend used messages deltas,
        rw (prepared, streamed, saved_stream) refl,
        shown-deltas deltas _ refl ∙ ap (λ m. m.content) (sym same),
        map delta_chunk deltas,
        final_chunk (build_sources used) (prompt_count backend messages)
            (backend.count_tokens (concat deltas) (codes "gpt-4o")),
        refl,
        refl,
      )

  -- If the consumer closes the stream after some of its chunks, the last one included, then what it
  -- took is a beginning of the chunks of the whole stream, and nothing is saved: the state is the
  -- one the provider leaves, and the exchange is missing from the history.
  pub stream-closed :
      (request : ChatRequest) (s s1 s2 : backend.State) (used : List SearchResult)
      (user : Option UserId) (messages : List ChatMessage) (deltas : List Text) (pulls : ℕ)
      → setup backend request s ≡ (ok (used, user, messages), s1)
      → backend.stream messages s1 ≡ ((deltas, none), s2)
      → pulls ≤ length (chunks_of backend used messages deltas)
      → stream backend (some pulls) request s
        ≡ ((take pulls (chunks_of backend used messages deltas), StreamEnd.closed), s2)
  unfolding stream run_stream
  stream-closed request s s1 s2 used user messages deltas pulls prepared streamed h =
      rw (prepared, streamed, le→leb pulls (length (chunks_of backend used messages deltas)) h) refl
