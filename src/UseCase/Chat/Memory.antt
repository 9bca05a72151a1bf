-- ===== src/UseCase/Chat/Memory.antt =====
-- The chat over the history in Redis: what the next question is asked with.
use ai_backend_api.Base.{◌≡◌}
use ai_backend_api.Base.Result.{Result, ok}
use ai_backend_api.Exec.{Exec}
use ai_backend_api.Repository.ChatHistory.{Codec, Lists, get_history, save_message}
use ai_backend_api.UseCase.Chat.{ChatBackend}

abbrev beside : {S A : Type 0} → Exec S A → Exec (Lists × S) A
beside call (lists, s) = let (r, s') = call s in (r, (lists, s'))

-- A backend with the history in Redis; what else it does leaves the history alone.
abbrev pub remembering : Codec → ChatBackend → ChatBackend
remembering codec talk = record {
  State = Lists × talk.State;
  search = λ request. beside (talk.search request);
  get_history = λ user limit p. (ok (get_history codec user limit p.0), p);
  save_message = λ user message p. (ok tt, (save_message codec user message p.0, p.1));
  complete = λ messages. beside (talk.complete messages);
  stream = λ messages p. let (r, s) = talk.stream messages p.1 in (r, (p.0, s));
  count_tokens = talk.count_tokens;
  parse_uuid = talk.parse_uuid;
  fresh = talk.fresh;
  max_context_tokens = talk.max_context_tokens;
  score_threshold = talk.score_threshold;
}

-- A call that leaves the history as it was.
record Keeps {S A : Type 0} (call : Exec (Lists × S) A) : Type 0 where
  kept : (p : Lists × S) → (call p).1.0 ≡ p.0
