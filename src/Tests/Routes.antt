-- ===== src/Tests/Routes.antt =====
-- Examples on the routes.
use ai_backend_api.Base.{ℕ, ◌≡◌, refl, arith, true, false, Option, none, some, [], ◌∷◌, map, take}
use ai_backend_api.Base.Text.{Text, codes}
use ai_backend_api.Base.Dict.{Dict}
use ai_backend_api.Base.Result.{ok}
use ai_backend_api.UseCase.Search.{SearchBackend}
use ai_backend_api.UseCase.Chat.{StreamChunk, SourceDto, chunks_of}
use ai_backend_api.Api.Chat
use ai_backend_api.Api.Chat.Agree.{as_stream, chat-disconnected}
use ai_backend_api.Api.Documents
use ai_backend_api.Api.Search
use ai_backend_api.Tests.Answers.{chat_backend, used, prompt, set_up}

abbrev message : Chat.ApiChatRequest
message = record {
  message = codes "why?";
  conversation_id = none;
  user_id = some (codes "u");
  top_k = 5;
  stream = false;
}

chat-disconnected_example : Chat.chat chat_backend (some 1) (as_stream true message) [] ≡ (
  Chat.ChatAnswer.streamed
      (map Chat.model_dump
        (take 1 (chunks_of chat_backend used prompt (codes "y" ∷ codes "es" ∷ []))))
      Chat.GeneratorEnd.finished,
  [],
)
unfolding chunks_of Chat.dto_request
chat-disconnected_example =
    chat-disconnected chat_backend message [] [] [] used (some (record { value = codes "u" }))
      prompt (codes "y" ∷ codes "es" ∷ []) set_up refl 1 (omega arith)

abbrev source : SourceDto
source = record {
  index = 1;
  chunk_id = codes "k";
  document_id = codes "d";
  document_title = codes "T";
  content = codes "some text";
  score = 900_000;
}

abbrev chunk : StreamChunk
chunk = record {
  content = [];
  done = true;
  sources = some (source ∷ []);
  prompt_tokens = some 3;
  completion_tokens = none;
  total_tokens = some 5;
}

abbrev search_backend : SearchBackend
search_backend = record {
  State = ℕ;
  count_tokens = λ text model. ok 1;
  embed = λ text s. (ok (record { values = []; model = codes "m"; dimensions = 0 }), s);
  search = λ v top_k filters s. (ok [], s);
}

abbrev query : Search.ApiSearchRequest
query = record { query = codes "why?"; collection_id = none; top_k = 5; filters = [] }

abbrev wrong : Option Text
wrong = some (codes "lost")
