-- ===== src/Tokens.antt =====
-- app/infrastructure/token/tiktoken_service.py. The library tiktoken is a parameter. A price is in
-- hundredths of a dollar for a million tokens, so a cost is exact in units of a hundred-millionth
-- of a dollar, where the source has floating point numbers.
pub mod Calls
use ai_backend_api.Base.{
  ℕ, ◌+◌, ◌*◌, Bool, Option, none, some, List, [], ◌∷◌, leb, length, take, if◌then◌else◌,
}
use ai_backend_api.Base.Text.{Text, codes}
use ai_backend_api.Base.Dict.{Dict, get, put}
use ai_backend_api.Base.Result.{Result, ok, err}
use ai_backend_api.Errors.{Exc}

pub record Tiktoken : Type 1 where
  pub Encoding : Type 0
  -- None where it raises KeyError
  pub encoding_for_model : Text → Option Encoding
  pub get_encoding : Text → Encoding
  -- It raises ValueError on a text with a special token.
  pub encode : Encoding → Text → Result Exc (List ℕ)
  pub decode : Encoding → List ℕ → Text

-- `_MODEL_PRICING`
unfoldable pub model_pricing : Dict (ℕ × ℕ)
model_pricing =
    (codes "gpt-4o", (250, 1000))
    ∷ (codes "gpt-4o-mini", (15, 60))
    ∷ (codes "gpt-4-turbo", (1000, 3000))
    ∷ (codes "gpt-4", (3000, 6000))
    ∷ (codes "gpt-3.5-turbo", (50, 150))
    ∷ (codes "text-embedding-3-small", (2, 0))
    ∷ (codes "text-embedding-3-large", (13, 0))
    ∷ (codes "text-embedding-ada-002", (10, 0))
    ∷ []

-- `_FALLBACK_ENCODING`
abbrev pub fallback_encoding : Text
fallback_encoding = codes "cl100k_base"

unfoldable pub estimate_cost : ℕ → ℕ → Text → ℕ
unfolding get model_pricing
estimate_cost prompt_tokens completion_tokens model = elim (get model_pricing model) [
  | none ↦ 0
  | some (input_price, output_price) ↦
      prompt_tokens * input_price + completion_tokens * output_price
]

module _ (library : Tiktoken) where
  -- The encoding that is made for a model that has none yet.
  unfoldable pub new_encoding : Text → library.Encoding
  new_encoding model = elim (library.encoding_for_model model) [
    | some e ↦ e
    | none ↦ library.get_encoding fallback_encoding
  ]

  -- `_get_encoding`, with `self._encodings` as the state.
  unfoldable pub get_encoding :
      Text → Dict library.Encoding → library.Encoding × Dict library.Encoding
  unfolding new_encoding get put
  get_encoding model encodings = elim (get encodings model) [
    | some e ↦ (e, encodings)
    | none ↦ (new_encoding model, put encodings model (new_encoding model))
  ]

  abbrev pub count_encoded : Result Exc (List ℕ) → Result Exc ℕ
  count_encoded (ok tokens) = ok (length tokens)
  count_encoded (err e) = err e

  unfoldable pub count_tokens :
      Text → Text → Dict library.Encoding → Result Exc ℕ × Dict library.Encoding
  unfolding get_encoding
  count_tokens text model encodings =
      let (encoding, encodings') = get_encoding model encodings in
      (count_encoded (library.encode encoding text), encodings')

  abbrev pub truncated : library.Encoding → Text → ℕ → Result Exc (List ℕ) → Result Exc Text
  truncated encoding text max_tokens (ok tokens) =
      if leb (length tokens) max_tokens
      then ok text
      else ok (library.decode encoding (take max_tokens tokens))
  truncated encoding text max_tokens (err e) = err e

  unfoldable pub truncate_to_token_limit :
      Text → ℕ → Text → Dict library.Encoding → Result Exc Text × Dict library.Encoding
  unfolding get_encoding
  truncate_to_token_limit text max_tokens model encodings =
      let (encoding, encodings') = get_encoding model encodings in
      (truncated encoding text max_tokens (library.encode encoding text), encodings')
