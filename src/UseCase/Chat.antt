-- ===== src/UseCase/Chat.antt =====
-- app/application/use_cases/rag_chat.py. The search use case, the chat provider, the history and
-- the token counter are a parameter, as the class is built from them.
pub mod Sources
pub mod Stream
pub mod Memory
use ai_backend_api.Base.{
  ℕ, zero, suc, ◌+◌, Bool, true, false, Option, none, some, List, [], ◌∷◌, ◌++◌, map, take, leb,
  length, if◌then◌else◌,
}
use ai_backend_api.Base.Text.{Text, codes, join}
use ai_backend_api.Base.Result
use ai_backend_api.Base.Result.{Result, ok, err}
use ai_backend_api.Entity.Values.{
  UuidParser, UserId, CollectionId, chunk_id_from_str, document_id_from_str, user_id_from_str,
}
use ai_backend_api.Entity.Chat.{
  SearchResult, search_result, ChatMessage, MessageRole, ChatResponse, TokenUsage,
}
use ai_backend_api.Errors.{Exc}
use ai_backend_api.Exec.{Exec, pure, lift, ◌>>=◌, ◌>>◌}
use ai_backend_api.Service.Context.{build_context}
use ai_backend_api.Service.Prompt.{build_rag_prompt, message_new}
use ai_backend_api.UseCase.Search.{SearchRequest, SearchResultDto, SearchResponse}

pub record ChatRequest : Type 0 where
  pub message : Text
  pub conversation_id : Option Text
  pub user_id : Option Text
  pub top_k : ℕ

pub record SourceDto : Type 0 where
  pub index : ℕ
  pub chunk_id : Text
  pub document_id : Text
  pub document_title : Text
  pub content : Text
  pub score : ℕ

pub record ChatResponseDto : Type 0 where
  pub message : Text
  pub sources : List SourceDto
  pub prompt_tokens : ℕ
  pub completion_tokens : ℕ
  pub total_tokens : ℕ

pub record StreamChunk : Type 0 where
  pub content : Text
  pub done : Bool
  pub sources : Option (List SourceDto)
  pub prompt_tokens : Option ℕ
  pub completion_tokens : Option ℕ
  pub total_tokens : Option ℕ

pub record ChatBackend : Type 1 where
  pub State : Type 0
  pub search : SearchRequest → Exec State SearchResponse
  pub get_history : UserId → ℕ → Exec State (List ChatMessage)
  pub save_message : UserId → ChatMessage → Exec State (Unit {0})
  pub complete : List ChatMessage → Exec State ChatResponse
  -- The deltas that a stream yields to its end, and the exception that ends it, if any
  pub stream : List ChatMessage → State → (List Text × Option Exc) × State
  pub count_tokens : Text → Text → ℕ
  pub parse_uuid : UuidParser
  -- `CollectionId()` of the i-th result
  pub fresh : ℕ → CollectionId
  pub max_context_tokens : ℕ
  pub score_threshold : ℕ

pub malformed : Exc
malformed = Exc.value_error (codes "badly formed hexadecimal UUID string")

abbrev pub or_raise : {A : Type 0} → Exc → Option A → Result Exc A
or_raise e none = err e
or_raise e (some a) = ok a

-- The request that both methods send to the search use case.
pub search_request : ChatRequest → SearchRequest
search_request request = record {
  query = request.message;
  collection_id = request.conversation_id;
  top_k = request.top_k;
  filters = [];
}

-- The sources from the i-th used result on; a preview has at most 200 characters.
unfoldable pub sources_from : ℕ → List SearchResult → List SourceDto
sources_from i [] = []
sources_from i (r ∷ rs) =
    record {
      index = suc i;
      chunk_id = r.chunk_id.value;
      document_id = r.document_id.value;
      document_title = r.document_title;
      content = take 200 r.content;
      score = r.score;
    }
    ∷ sources_from (suc i) rs

-- `_build_sources(results)`
unfoldable pub build_sources : List SearchResult → List SourceDto
unfolding sources_from
build_sources results = sources_from 0 results

-- `usage.… if usage else 0`
abbrev pub usage_or_zero : (TokenUsage → ℕ) → Option TokenUsage → ℕ
usage_or_zero f none = 0
usage_or_zero f (some u) = f u

-- Step 7 and the DTO that `execute` returns.
unfoldable pub response_dto : List SearchResult → ChatResponse → ChatResponseDto
unfolding build_sources
response_dto used_results chat_response =
    let usage = chat_response.token_usage in
    record {
      message = chat_response.message.content;
      sources = build_sources used_results;
      prompt_tokens = usage_or_zero (λ u. u.prompt_tokens) usage;
      completion_tokens = usage_or_zero (λ u. u.completion_tokens) usage;
      total_tokens = usage_or_zero (λ u. u.total_tokens) usage;
    }

-- A chunk of a delta, and the last one.
abbrev pub delta_chunk : Text → StreamChunk
delta_chunk delta = record {
  content = delta;
  done = false;
  sources = none;
  prompt_tokens = none;
  completion_tokens = none;
  total_tokens = none;
}

abbrev pub final_chunk : List SourceDto → ℕ → ℕ → StreamChunk
final_chunk sources prompt_tokens completion_tokens = record {
  content = [];
  done = true;
  sources = some sources;
  prompt_tokens = some prompt_tokens;
  completion_tokens = some completion_tokens;
  total_tokens = some (prompt_tokens + completion_tokens);
}

-- How a generator ends: its body has ended, it raised, or its consumer closed it at a `yield`.
pub data StreamEnd : Type 0 where
  finished : StreamEnd
  raised : Exc → StreamEnd
  closed : StreamEnd

-- `full_content`
unfoldable pub concat : List Text → Text
concat [] = []
concat (t ∷ ts) = t ++ concat ts

module _ (backend : ChatBackend) where
  unfoldable pub domain_result : ℕ → SearchResultDto → Result Exc SearchResult
  unfolding search_result
  domain_result i r =
      Result.◌>>=◌ (or_raise malformed (chunk_id_from_str backend.parse_uuid r.chunk_id))
        (λ chunk_id.
          Result.◌>>=◌ (or_raise malformed (document_id_from_str backend.parse_uuid r.document_id))
            (λ document_id. or_raise (Exc.validation_error (codes "score")) (
              search_result chunk_id document_id (backend.fresh i) r.content r.score r.metadata
                r.document_title r.chunk_index)))

  -- `domain_results`
  unfoldable pub domain_results : ℕ → List SearchResultDto → Result Exc (List SearchResult)
  unfolding domain_result
  domain_results i [] = ok []
  domain_results i (r ∷ rs) =
      Result.◌>>=◌ (domain_result i r)
        (λ d. Result.◌>>=◌ (domain_results (suc i) rs) (λ ds. ok (d ∷ ds)))

  -- `if request.user_id: user_id = UserId.from_str(request.user_id)`; the second reading, when the
  -- messages are saved, is of the same text.
  unfoldable pub user_of : ChatRequest → Result Exc (Option UserId)
  user_of request = elim request.user_id [
    | none ↦ ok none
    | some [] ↦ ok none
    | some (c ∷ cs) ↦
        Result.◌>>=◌ (or_raise malformed (user_id_from_str backend.parse_uuid (c ∷ cs)))
          (λ u. ok (some u))
  ]

  unfoldable pub history_of : Option UserId → Exec backend.State (List ChatMessage)
  history_of none = pure []
  history_of (some u) = backend.get_history u 5

  -- Steps 1 to 4 of both methods: the results used, the user and the messages.
  unfoldable pub setup :
      ChatRequest → Exec backend.State (List SearchResult × Option UserId × List ChatMessage)
  unfolding domain_results user_of history_of search_request build_context build_rag_prompt
  setup request = do
    search_response ← backend.search (search_request request)
    results ← lift (domain_results 0 search_response.results)
    let (context, used_results) =
        build_context backend.count_tokens backend.max_context_tokens backend.score_threshold
          (codes "gpt-4o") results
    user ← lift (user_of request)
    history ← history_of user
    pure (used_results, user, build_rag_prompt request.message context history)

  -- `if request.user_id:` save the two messages of the exchange.
  unfoldable pub save_exchange :
      Option UserId → ChatMessage → ChatMessage → Exec backend.State (Unit {0})
  save_exchange none user_msg assistant_msg = pure tt
  save_exchange (some u) user_msg assistant_msg =
      backend.save_message u user_msg >> backend.save_message u assistant_msg

  unfoldable pub execute : ChatRequest → Exec backend.State ChatResponseDto
  unfolding setup save_exchange response_dto
  execute request = do
    (used_results, user, messages) ← setup request
    chat_response ← backend.complete messages
    save_exchange user (message_new MessageRole.user request.message) chat_response.message
    pure (response_dto used_results chat_response)

  unfoldable pub prompt_count : List ChatMessage → ℕ
  prompt_count messages =
      backend.count_tokens (join (codes " ") (map (λ m. m.content) messages)) (codes "gpt-4o")

  -- The chunks that the generator yields to its end.
  unfoldable pub chunks_of : List SearchResult → List ChatMessage → List Text → List StreamChunk
  unfolding build_sources concat prompt_count
  chunks_of used_results messages deltas =
      map delta_chunk deltas
      ++ (final_chunk (build_sources used_results) (prompt_count messages)
            (backend.count_tokens (concat deltas) (codes "gpt-4o"))
          ∷ [])

  -- The consumer of a generator takes all of its chunks, or closes it after some.
  abbrev pub is_closed : Option ℕ → List StreamChunk → Bool
  is_closed none chunks = false
  is_closed (some n) chunks = leb n (length chunks)

  abbrev pub taken : Option ℕ → List StreamChunk → List StreamChunk
  taken none chunks = chunks
  taken (some n) chunks = take n chunks

  abbrev pub end_of : Result Exc (Unit {0}) → StreamEnd
  end_of (ok _) = StreamEnd.finished
  end_of (err e) = StreamEnd.raised e

  abbrev finish :
      Text
      → Option UserId
      → List Text
      → List StreamChunk
      → backend.State
      → (List StreamChunk × StreamEnd) × backend.State
  unfolding save_exchange concat
  finish message user deltas chunks s =
      let (saved, s') =
        save_exchange user (message_new MessageRole.user message)
          (message_new MessageRole.assistant (concat deltas)) s in
      ((chunks, end_of saved), s')

  -- From step 5 on.
  unfoldable pub run_stream :
      Option ℕ
      → Text
      → List SearchResult
      → Option UserId
      → List ChatMessage
      → (List Text × Option Exc) × backend.State
      → (List StreamChunk × StreamEnd) × backend.State
  unfolding chunks_of save_exchange concat
  run_stream pulls message used user messages ((deltas, some e), s) =
      if is_closed pulls (map delta_chunk deltas)
      then ((taken pulls (map delta_chunk deltas), StreamEnd.closed), s)
      else ((map delta_chunk deltas, StreamEnd.raised e), s)
  run_stream pulls message used user messages ((deltas, none), s) =
      if is_closed pulls (chunks_of used messages deltas)
      then ((taken pulls (chunks_of used messages deltas), StreamEnd.closed), s)
      else finish message user deltas (chunks_of used messages deltas) s

  abbrev stream_from :
      Option ℕ
      → Text
      → Result Exc (List SearchResult × Option UserId × List ChatMessage)
      → backend.State
      → (List StreamChunk × StreamEnd) × backend.State
  unfolding run_stream
  stream_from pulls message (err e) s = (([], StreamEnd.raised e), s)
  stream_from pulls message (ok (used, user, messages)) s =
      run_stream pulls message used user messages (backend.stream messages s)

  -- `stream(request)`, whose consumer takes all chunks or closes it after `pulls` of them, the last
  -- one taken included: what was yielded, how it ended, and the state.
  unfoldable pub stream :
      Option ℕ → ChatRequest → backend.State → (List StreamChunk × StreamEnd) × backend.State
  unfolding setup run_stream
  stream pulls request s =
      let (prepared, s') = setup request s in stream_from pulls request.message prepared s'
