-- ===== src/Api/Chat.antt =====
-- app/api/routers/chat.py and the schemas of app/api/schemas/chat.py. When the client leaves is an
-- argument: the number of the check of the stream, from 0, that first finds it gone. A generator
-- that its loop leaves is closed. A cancellation of the task, which the source logs and raises
-- again, is left out.
pub mod Events
pub mod Agree
use ai_backend_api.Base.{
  ℕ, suc, Bool, true, false, ◌&&◌, Option, none, some, List, [], ◌∷◌, map, take, leb, length,
  if◌then◌else◌,
}
use mathlib.Core.Option
use ai_backend_api.Base.Text.{Text, codes}
use ai_backend_api.Base.Dict.{Dict, get}
use ai_backend_api.Base.Result.{Result, ok, err}
use ai_backend_api.Api.Auth.{HttpException, get_api_key}
use ai_backend_api.Errors.{Exc}
use ai_backend_api.Errors.Handlers.{ErrorAnswer, answer}
use ai_backend_api.UseCase.Chat.{
  ChatBackend, ChatRequest, ChatResponseDto, SourceDto, StreamChunk, StreamEnd, execute, stream,
}

pub record ApiChatRequest : Type 0 where
  pub message : Text
  pub conversation_id : Option Text
  pub user_id : Option Text
  pub top_k : ℕ
  pub stream : Bool

-- The constraints of the fields.
unfoldable pub is_valid : ApiChatRequest → Bool
is_valid r =
    (leb 1 (length r.message) && leb (length r.message) 4000) && (leb 1 r.top_k && leb r.top_k 20)

pub record SourceResponse : Type 0 where
  pub index : ℕ
  pub chunk_id : Text
  pub document_id : Text
  pub document_title : Text
  pub content : Text
  pub score : ℕ

-- The `ChatResponse` of the API.
pub record ApiChatResponse : Type 0 where
  pub message : Text
  pub sources : List SourceResponse
  pub prompt_tokens : ℕ
  pub completion_tokens : ℕ
  pub total_tokens : ℕ

unfoldable pub source_response : SourceDto → SourceResponse
source_response s = record {
  index = s.index;
  chunk_id = s.chunk_id;
  document_id = s.document_id;
  document_title = s.document_title;
  content = s.content;
  score = s.score;
}

-- The response to a DTO of the use case.
unfoldable pub chat_response : ChatResponseDto → ApiChatResponse
unfolding source_response
chat_response dto = record {
  message = dto.message;
  sources = map source_response dto.sources;
  prompt_tokens = dto.prompt_tokens;
  completion_tokens = dto.completion_tokens;
  total_tokens = dto.total_tokens;
}

unfoldable pub dto_request : ApiChatRequest → ChatRequest
dto_request r = record {
  message = r.message;
  conversation_id = r.conversation_id;
  user_id = r.user_id;
  top_k = r.top_k;
}

-- A value of the JSON object of an event.
pub data Json : Type 0 where
  string : Text → Json
  boolean : Bool → Json
  number : ℕ → Json
  sources : List SourceDto → Json

abbrev present : {A : Type 0} → Text → (A → Json) → Option A → Dict Json → Dict Json
present k f none rest = rest
present k f (some a) rest = (k, f a) ∷ rest

-- `chunk.model_dump_json(exclude_none=True)`
unfoldable pub model_dump : StreamChunk → Dict Json
model_dump c =
    (codes "content", Json.string c.content)
    ∷ (codes "done", Json.boolean c.done)
    ∷ present (codes "sources") Json.sources c.sources (
        present (codes "prompt_tokens") Json.number c.prompt_tokens (
          present (codes "completion_tokens") Json.number c.completion_tokens
            (present (codes "total_tokens") Json.number c.total_tokens [])))

-- How `_stream_generator` ends.
pub data GeneratorEnd : Type 0 where
  finished : GeneratorEnd
  raised : Exc → GeneratorEnd

abbrev pub generator_end : StreamEnd → GeneratorEnd
generator_end StreamEnd.finished = finished
generator_end StreamEnd.closed = finished
generator_end (StreamEnd.raised e) = raised e

abbrev pub before_leaving : Option ℕ → List StreamChunk → List StreamChunk
before_leaving none chunks = chunks
before_leaving (some n) chunks = take n chunks

-- What the route answers; a stream that has begun can only break off.
pub data ChatAnswer : Type 0 where
  responded : ApiChatResponse → ChatAnswer
  streamed : List (Dict Json) → GeneratorEnd → ChatAnswer
  refused : HttpException → ChatAnswer
  invalid : ChatAnswer
  failed : Option ErrorAnswer → ChatAnswer

module _ (backend : ChatBackend) where
  -- `_stream_generator`: the chunk after which a check finds the client gone is taken from the use
  -- case and not passed on.
  unfoldable pub stream_generator :
      Option ℕ → ChatRequest → backend.State → (List (Dict Json) × GeneratorEnd) × backend.State
  unfolding model_dump stream
  stream_generator left_at request s =
      let ((chunks, end), s') = stream backend (Option.map (λ n. suc n) left_at) request s in
      ((map model_dump (before_leaving left_at chunks), generator_end end), s')

  abbrev pub answered : Result Exc ChatResponseDto → ChatAnswer
  unfolding answer chat_response
  answered (ok dto) = ChatAnswer.responded (chat_response dto)
  answered (err e) = ChatAnswer.failed (answer e)

  -- The handler's body.
  unfoldable pub chat : Option ℕ → ApiChatRequest → backend.State → ChatAnswer × backend.State
  unfolding dto_request stream_generator execute chat_response
  chat left_at request s =
      if request.stream
      then (let ((events, end), s') = stream_generator left_at (dto_request request) s in
          (ChatAnswer.streamed events end, s'))
      else (let (r, s') = execute backend (dto_request request) s in (answered r, s'))

  unfoldable pub authorised :
      Result HttpException Text
      → Option ℕ
      → ApiChatRequest
      → backend.State
      → ChatAnswer × backend.State
  unfolding is_valid chat
  authorised (err e) left_at request s = (ChatAnswer.refused e, s)
  authorised (ok key) left_at request s =
      if is_valid request then chat left_at request s else (ChatAnswer.invalid, s)

  -- `POST /chat`
  unfoldable pub post_chat :
      Text → Option Text → Option ℕ → ApiChatRequest → backend.State → ChatAnswer × backend.State
  unfolding get_api_key is_valid chat
  post_chat expected header left_at request s =
      authorised (get_api_key expected header) left_at request s
