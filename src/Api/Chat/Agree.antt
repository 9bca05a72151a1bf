-- ===== src/Api/Chat/Agree.antt =====
-- The two ways in which the chat route answers, and a client that leaves.
use ai_backend_api.Base.{
  ℕ, zero, suc, ◌≤◌, ◌≡◌, refl, ap, ◌∙◌, Bool, true, Option, none, some, List, [], ◌∷◌, ◌++◌, map,
  take, length,
}
use ai_backend_api.Base.Text.{Text}
use ai_backend_api.Base.Dict.{Dict}
use ai_backend_api.Base.Result.{ok}
use ai_backend_api.Entity.Values.{UserId}
use ai_backend_api.Entity.Chat.{SearchResult, ChatMessage}
use ai_backend_api.UseCase.Chat.{ChatBackend, setup, chunks_of}
use ai_backend_api.UseCase.Chat.Stream.{stream-closed}
use ai_backend_api.Api.Chat.{
  generator_end, ApiChatRequest, ChatAnswer, GeneratorEnd, chat, dto_request, model_dump,
  stream_generator,
}
use ai_backend_api.Api.Chat.Events.{StreamEvent}

-- The text that a client puts together from the events.
pub displayed : List StreamEvent → Text
displayed [] = []
displayed (e ∷ es) = e.content ++ displayed es

take-take-suc : {A : Type 0} (n : ℕ) (xs : List A) → take n (take (suc n) xs) ≡ take n xs
take-take-suc n [] = refl
take-take-suc zero (x ∷ xs) = refl
take-take-suc (suc n) (x ∷ xs) = ap (λ (l : List _). x ∷ l) (take-take-suc n xs)

abbrev pub as_stream : Bool → ApiChatRequest → ApiChatRequest
as_stream b request = record request { stream = b }

module _ (backend : ChatBackend) (request : ApiChatRequest) (s s1 s2 : backend.State)
    (used : List SearchResult) (user : Option UserId) (messages : List ChatMessage)
    (deltas : List Text)
    (prepared : setup backend (dto_request request) s ≡ (ok (used, user, messages), s1))
    (streamed : backend.stream messages s1 ≡ ((deltas, none), s2)) where
  -- A client that is found gone at a check of the stream has got exactly the events before the
  -- chunk of that check, and nothing of the exchange is saved: the state is the one that the
  -- provider leaves.
  pub chat-disconnected :
      (n : ℕ)
      → suc n ≤ length (chunks_of backend used messages deltas)
      → chat backend (some n) (as_stream true request) s ≡ (
        ChatAnswer.streamed
            (map model_dump (take n (chunks_of backend used messages deltas)))
            GeneratorEnd.finished,
        s2,
      )
  unfolding chat stream_generator dto_request
  chat-disconnected n h =
      let closed =
        stream-closed backend (dto_request request) s s1 s2 used user messages deltas (suc n)
          prepared streamed h in
      (λ i. (
        ChatAnswer.streamed (map model_dump (take n (closed i).0.0)) (generator_end (closed i).0.1),
        (closed i).1,
      ))
      ∙ ap (λ l. (ChatAnswer.streamed (map model_dump l) GeneratorEnd.finished, s2))
          (take-take-suc n (chunks_of backend used messages deltas))
