-- ===== src/Provider/Chat.antt =====
-- app/infrastructure/llm/openai_chat.py. What the OpenAI client answers to a request is a parameter,
-- and so is `float` of a header, with delays in whole seconds.
pub mod Failures
pub mod Deltas
use ai_backend_api.Base.{
  ℕ, ◌+◌, Bool, true, false, ◌||◌, ◌&&◌, Option, none, some, List, [], ◌∷◌, ◌++◌, map,
  if◌then◌else◌, leb, ◌==◌,
}
use ai_backend_api.Base.Text.{Text, codes}
use ai_backend_api.Base.Result.{Result, ok, err, ◌>>=◌}
use ai_backend_api.Call.{check_call}
use ai_backend_api.Entity.Chat.{ChatMessage, MessageRole, role_value, TokenUsage, ChatResponse}
use ai_backend_api.Errors.{Exc}
use ai_backend_api.Provider.Embedding.{rate_limit_signature}

-- `_settings`, as far as the requests go; the temperature is in millionths.
pub record OpenaiSettings : Type 0 where
  pub model : Text
  pub temperature : ℕ
  pub max_tokens : ℕ

-- The arguments of `client.chat.completions.create`.
pub record CompletionRequest : Type 0 where
  pub model : Text
  pub messages : List (Text × Text)
  pub temperature : ℕ
  pub max_tokens : ℕ
  pub stream : Bool

-- The exceptions of the client. A rate limit comes with the response's `retry-after` header, if
-- there is a response with one.
pub data ApiFailure : Type 0 where
  rate_limited : (retry_after : Option Text) → ApiFailure
  connection_failed bad_request other_error : (text : Text) → ApiFailure

-- The content of each choice, and the usage.
pub data Completion : Type 0 where
  completed : List (Option Text) → Option TokenUsage → Completion
  not_completed : ApiFailure → Completion

-- The chunks of a stream, each with the content of its choices' deltas, to its end or to an
-- OpenAIError.
pub data Streaming : Type 0 where
  streamed : List (List (Option Text)) → Option Text → Streaming
  not_streamed : ApiFailure → Streaming

-- `_to_openai_messages`
unfoldable pub to_openai_messages : List ChatMessage → List (Text × Text)
unfolding role_value
to_openai_messages messages = map (λ m. (role_value m.role, m.content)) messages

abbrev pub completion_request : OpenaiSettings → List ChatMessage → Bool → CompletionRequest
unfolding to_openai_messages
completion_request settings messages stream = record {
  model = settings.model;
  messages = to_openai_messages messages;
  temperature = settings.temperature;
  max_tokens = settings.max_tokens;
  stream = stream;
}

-- `_extract_retry_after`
unfoldable pub extract_retry_after : (Text → Option ℕ) → Option Text → Option ℕ
extract_retry_after float none = none
extract_retry_after float (some header) = float header

-- `str.lower`, on the ASCII letters
unfoldable pub lower : Text → Text
lower [] = []
lower (c ∷ s) = (if leb b'A' c && leb c b'Z' then c + 32 else c) ∷ lower s

unfoldable pub starts_with : Text → Text → Bool
starts_with [] s = true
starts_with (c ∷ p) [] = false
starts_with (c ∷ p) (d ∷ s) = (c == d) && starts_with p s

-- `part in s`
unfoldable pub is_substring : Text → Text → Bool
unfolding starts_with
is_substring part [] = starts_with part []
is_substring part (c ∷ s) = starts_with part (c ∷ s) || is_substring part s

-- The test of the BadRequestError handler.
unfoldable pub is_token_limit : Text → Bool
unfolding lower is_substring
is_token_limit text =
    is_substring (codes "maximum context length") (lower text)
    || is_substring (codes "max_tokens") (lower text)

-- `raise LLMRateLimitException(provider="openai", retry_after=…)`
unfoldable pub raise_rate_limit : {A : Type 0} → Option ℕ → Result Exc A
raise_rate_limit retry_after =
    check_call rate_limit_signature 1 (codes "provider" ∷ codes "retry_after" ∷ []) >>= λ _.
    err (Exc.llm_rate_limit retry_after)

abbrev pub llm_error : Text → Text → Exc
llm_error prefix text = Exc.llm (prefix ++ text) (codes "LLM_ERROR")

-- The except clauses of `complete`.
unfoldable pub complete_failed : {A : Type 0} → (Text → Option ℕ) → ℕ → ApiFailure → Result Exc A
unfolding raise_rate_limit extract_retry_after is_token_limit
complete_failed float max_tokens (ApiFailure.rate_limited header) =
    raise_rate_limit (extract_retry_after float header)
complete_failed float max_tokens (ApiFailure.connection_failed text) = err (Exc.llm_connection text)
complete_failed float max_tokens (ApiFailure.bad_request text) =
    if is_token_limit text
    then err (Exc.token_limit_exceeded 0 max_tokens)
    else err (llm_error (codes "OpenAI chat failed: ") text)
complete_failed float max_tokens (ApiFailure.other_error text) =
    err (llm_error (codes "OpenAI chat failed: ") text)

abbrev pub usage_of : Option TokenUsage → TokenUsage
usage_of none = record { prompt_tokens = 0; completion_tokens = 0; total_tokens = 0 }
usage_of (some usage) = usage

abbrev pub content_of : Option Text → Text
content_of none = []
content_of (some content) = content

-- What `complete` makes of the API's answer.
abbrev pub response_of : (Text → Option ℕ) → ℕ → Completion → Result Exc ChatResponse
unfolding complete_failed
response_of float max_tokens (Completion.not_completed failure) =
    complete_failed float max_tokens failure
response_of float max_tokens (Completion.completed [] usage) =
    err (Exc.other_error (codes "list index out of range"))
response_of float max_tokens (Completion.completed (content ∷ choices) usage) = ok (record {
  message = record { role = MessageRole.assistant; content = content_of content; metadata = [] };
  sources = [];
  token_usage = some (usage_of usage);
})

-- `complete`
unfoldable pub complete :
    (Text → Option ℕ)
    → OpenaiSettings
    → (CompletionRequest → Completion)
    → List ChatMessage
    → Result Exc ChatResponse
unfolding complete_failed to_openai_messages
complete float settings api messages =
    response_of float settings.max_tokens (api (completion_request settings messages false))

-- The except clauses around the opening of a stream; BadRequestError has none of its own here.
unfoldable pub stream_failed : (Text → Option ℕ) → ApiFailure → Result Exc (Unit {0})
unfolding raise_rate_limit extract_retry_after
stream_failed float (ApiFailure.rate_limited header) =
    raise_rate_limit (extract_retry_after float header)
stream_failed float (ApiFailure.connection_failed text) = err (Exc.llm_connection text)
stream_failed float (ApiFailure.bad_request text) =
    err (llm_error (codes "OpenAI stream failed: ") text)
stream_failed float (ApiFailure.other_error text) =
    err (llm_error (codes "OpenAI stream failed: ") text)

abbrev pub emitted : Option Text → List Text → List Text
emitted (some (c ∷ s)) rest = (c ∷ s) ∷ rest
emitted _ rest = rest

-- What the loop over the chunks yields.
unfoldable pub deltas : List (List (Option Text)) → List Text
deltas [] = []
deltas ([] ∷ chunks) = deltas chunks
deltas ((delta ∷ choices) ∷ chunks) = emitted delta (deltas chunks)

abbrev pub interruption : Option Text → Option Exc
interruption none = none
interruption (some text) = some (llm_error (codes "OpenAI stream interrupted: ") text)

abbrev pub raised : Result Exc (Unit {0}) → Option Exc
raised (ok _) = none
raised (err e) = some e

abbrev pub yields : (Text → Option ℕ) → Streaming → List Text × Option Exc
unfolding stream_failed deltas
yields float (Streaming.not_streamed failure) = ([], raised (stream_failed float failure))
yields float (Streaming.streamed chunks end) = (deltas chunks, interruption end)

-- `stream`: the deltas that it yields, and the exception that ends it, if one does.
unfoldable pub stream :
    (Text → Option ℕ)
    → OpenaiSettings
    → (CompletionRequest → Streaming)
    → List ChatMessage
    → List Text × Option Exc
unfolding stream_failed deltas to_openai_messages
stream float settings api messages = yields float (api (completion_request settings messages true))
