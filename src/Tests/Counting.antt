-- ===== src/Tests/Counting.antt =====
-- Examples on the token service: a token for each code point, with an encoding of its own for
-- gpt-4o.
use ai_backend_api.Base.{ℕ, ◌≡◌, refl, none, some, List, [], ◌∷◌, map, if◌then◌else◌}
use ai_backend_api.Base.Text.{codes, text_eq}
use ai_backend_api.Base.Dict.{get}
use ai_backend_api.Base.Result.{ok, err}
use ai_backend_api.Errors.{Exc}
use ai_backend_api.Tokens.{Tiktoken, estimate_cost, model_pricing}
use ai_backend_api.Tokens.Calls.{Call, calls, uncached, calls-uncached}

abbrev tiktoken : Tiktoken
tiktoken = record {
  Encoding = ℕ;
  encoding_for_model = λ model. if text_eq model (codes "gpt-4o") then some 1 else none;
  get_encoding = λ name. 0;
  encode = λ encoding text.
      if text_eq text (codes "<|endoftext|>") then err (Exc.value_error text) else ok text;
  decode = λ encoding tokens. tokens;
}

abbrev some_calls : List Call
some_calls =
    Call.count (codes "Hello") (codes "gpt-4o")
    ∷ Call.truncate (codes "Hello") 2 (codes "gpt-4o")
    ∷ Call.count (codes "<|endoftext|>") (codes "other")
    ∷ []

calls-uncached_example : (calls tiktoken some_calls []).0 ≡ map (uncached tiktoken) some_calls
calls-uncached_example = calls-uncached tiktoken some_calls

cost_lem : estimate_cost 1000 500 (codes "gpt-4o") ≡ 750_000
unfolding estimate_cost get model_pricing
cost_lem = refl
