-- ===== src/Api/Chat/Events.antt =====
-- What a client reads from the events of a stream.
use ai_backend_api.Base.{ℕ, ◌≡◌, refl, Bool, false, Option, none, some, List, [], ◌∷◌, map}
use ai_backend_api.Base.Text.{Text, codes}
use ai_backend_api.Base.Dict.{Dict, get}
use ai_backend_api.UseCase.Chat.{StreamChunk, SourceDto}
use ai_backend_api.Api.Chat.{Json, model_dump, SourceResponse, source_response}

-- The schema `StreamEvent`, with its defaults for the fields that are absent.
pub record StreamEvent : Type 0 where
  pub content : Text
  pub done : Bool
  pub sources : Option (List SourceResponse)
  pub prompt_tokens : Option ℕ
  pub completion_tokens : Option ℕ
  pub total_tokens : Option ℕ

abbrev text_or : Text → Option Json → Text
text_or t (some (Json.string s)) = s
text_or t _ = t

abbrev boolean_or : Bool → Option Json → Bool
boolean_or b (some (Json.boolean c)) = c
boolean_or b _ = b

abbrev number_or_none : Option Json → Option ℕ
number_or_none (some (Json.number n)) = some n
number_or_none _ = none

abbrev sources_or_none : Option Json → Option (List SourceResponse)
unfolding source_response
sources_or_none (some (Json.sources s)) = some (map source_response s)
sources_or_none _ = none

-- An event read by the schema.
unfoldable pub stream_event : Dict Json → StreamEvent
unfolding get source_response
stream_event d = record {
  content = text_or [] (get d (codes "content"));
  done = boolean_or false (get d (codes "done"));
  sources = sources_or_none (get d (codes "sources"));
  prompt_tokens = number_or_none (get d (codes "prompt_tokens"));
  completion_tokens = number_or_none (get d (codes "completion_tokens"));
  total_tokens = number_or_none (get d (codes "total_tokens"));
}

abbrev pub sources_of : Option (List SourceDto) → Option (List SourceResponse)
unfolding source_response
sources_of none = none
sources_of (some s) = some (map source_response s)

-- What the client should see of a chunk.
unfoldable pub event_of : StreamChunk → StreamEvent
unfolding source_response
event_of c = record {
  content = c.content;
  done = c.done;
  sources = sources_of c.sources;
  prompt_tokens = c.prompt_tokens;
  completion_tokens = c.completion_tokens;
  total_tokens = c.total_tokens;
}

abbrev chunk_of :
    Text → Bool → Option (List SourceDto) → Option ℕ → Option ℕ → Option ℕ → StreamChunk
chunk_of content done s p c t = record {
  content = content;
  done = done;
  sources = s;
  prompt_tokens = p;
  completion_tokens = c;
  total_tokens = t;
}

event_case :
    (content : Text) (done : Bool) (s : Option (List SourceDto)) (p c t : Option ℕ)
    → stream_event (model_dump (chunk_of content done s p c t))
      ≡ event_of (chunk_of content done s p c t)
unfolding stream_event model_dump event_of
event_case content done none none none none = refl
event_case content done none none none (some k) = refl
event_case content done none none (some m) none = refl
event_case content done none none (some m) (some k) = refl
event_case content done none (some n) none none = refl
event_case content done none (some n) none (some k) = refl
event_case content done none (some n) (some m) none = refl
event_case content done none (some n) (some m) (some k) = refl
event_case content done (some x) none none none = refl
event_case content done (some x) none none (some k) = refl
event_case content done (some x) none (some m) none = refl
event_case content done (some x) none (some m) (some k) = refl
event_case content done (some x) (some n) none none = refl
event_case content done (some x) (some n) none (some k) = refl
event_case content done (some x) (some n) (some m) none = refl
event_case content done (some x) (some n) (some m) (some k) = refl

-- Every chunk of the use case is an event that the schema `StreamEvent` reads back as it was: the
-- fields that are None are left out of the JSON, and the schema's defaults restore them.
pub stream_event-model_dump : (c : StreamChunk) → stream_event (model_dump c) ≡ event_of c
stream_event-model_dump c =
    event_case c.content c.done c.sources c.prompt_tokens c.completion_tokens c.total_tokens

pub map-stream_event :
    (chunks : List StreamChunk) → map stream_event (map model_dump chunks) ≡ map event_of chunks
map-stream_event [] = refl
map-stream_event (c ∷ chunks) = λ i. stream_event-model_dump c i ∷ map-stream_event chunks i
