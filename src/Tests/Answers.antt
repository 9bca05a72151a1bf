-- ===== src/Tests/Answers.antt =====
-- Examples on the answering of queries: context, prompt, search and chat.
use ai_backend_api.Base.{ℕ, ◌≤◌, ◌≡◌, refl, none, some, List, [], ◌∷◌, ◌++◌, map, filter_by}
use ai_backend_api.Base.Text.{Text, codes, join, show}
use ai_backend_api.Base.Result.{ok}
use ai_backend_api.Exec.{◌>>=◌}
use ai_backend_api.Entity.Values.{str, user_id_from_str, chunk_id_from_str, document_id_from_str}
use ai_backend_api.Entity.Chat.{SearchResult, ChatMessage, MessageRole}
use ai_backend_api.Service.Context.{
  build_context, format_block, tokens, IsFit, is_relevant, build_context-IsFit,
}
use ai_backend_api.Service.Prompt.{message_new, prompt_head, prompt_tail}
use ai_backend_api.UseCase.Search.{SearchRequest, result_dto}
use ai_backend_api.UseCase.Chat.{ChatBackend, ChatRequest, setup, save_exchange}

abbrev result_of : Text → ℕ → SearchResult
result_of id score = record {
  chunk_id = record { value = id };
  document_id = record { value = codes "d" };
  collection_id = record { value = codes "c" };
  content = codes "some text";
  score = score;
  metadata = [];
  document_title = codes "T";
  chunk_index = 3;
}

abbrev results : List SearchResult
results =
    result_of (codes "k1") 900_000
    ∷ result_of (codes "k2") 500_000
    ∷ result_of (codes "k3") 800_000
    ∷ []

abbrev pub count_one : Text → Text → ℕ
count_one text model = 1

build_context-IsFit_example :
    (blocks : List Text) × ((build_context count_one 1 720_000 (codes "gpt-4o") results).0
      ≡ join (codes "\n\n") blocks)
    × IsFit count_one 1 720_000
        (codes "gpt-4o")
        0
        0
        (filter_by (is_relevant count_one 1 720_000 (codes "gpt-4o")) results)
        blocks
        (build_context count_one 1 720_000 (codes "gpt-4o") results).1
    × (tokens count_one 1 720_000 (codes "gpt-4o") blocks ≤ 1)
build_context-IsFit_example = build_context-IsFit count_one 1 720_000 (codes "gpt-4o") results

abbrev search_request : SearchRequest
search_request = record {
  query = codes "why?";
  collection_id = some (codes "c");
  top_k = 5;
  filters = (codes "collection_id", str (codes "other")) ∷ [];
}

-- The history as the state; a provider that answers "yes".
abbrev pub yes_message : ChatMessage
yes_message = record { role = MessageRole.assistant; content = codes "yes"; metadata = [] }

abbrev pub chat_backend : ChatBackend
chat_backend = record {
  State = List ChatMessage;
  search = λ request s. (
    ok (record {
      results = map result_dto (result_of (codes "k1") 900_000 ∷ []);
      total = 1;
      query_tokens = 1;
    }),
    s,
  );
  get_history = λ user limit s. (ok [], s);
  save_message = λ user m s. (ok tt, s ++ (m ∷ []));
  complete =
      λ messages s. (ok (record { message = yes_message; sources = []; token_usage = none }), s);
  stream = λ messages s. ((codes "y" ∷ codes "es" ∷ [], none), s);
  count_tokens = count_one;
  parse_uuid = λ t. some t;
  fresh = λ i. record { value = codes "f" };
  max_context_tokens = 10;
  score_threshold = 720_000;
}

abbrev pub chat_request : ChatRequest
chat_request = record {
  message = codes "why?";
  conversation_id = none;
  user_id = some (codes "u");
  top_k = 5;
}

abbrev pub used : List SearchResult
used = record (result_of (codes "k1") 900_000) { collection_id = record { value = codes "f" } } ∷ []

abbrev pub prompt : List ChatMessage
prompt =
    message_new MessageRole.system (
      prompt_head ++ (codes "[1] Source: \"T\" (chunk 3, relevance 90%)\nsome text" ++ prompt_tail))
    ∷ message_new MessageRole.user (codes "why?")
    ∷ []

pub set_up :
    setup chat_backend chat_request []
    ≡ (ok (used, some (record { value = codes "u" }), prompt), [])
unfolding setup result_dto ◌>>=◌ user_id_from_str chunk_id_from_str document_id_from_str filter_by
    join format_block show
set_up = refl

pub saved :
    save_exchange chat_backend
      (some (record { value = codes "u" }))
      (message_new MessageRole.user (codes "why?"))
      yes_message
      []
    ≡ (ok tt, message_new MessageRole.user (codes "why?") ∷ yes_message ∷ [])
unfolding save_exchange ◌>>=◌
saved = refl
