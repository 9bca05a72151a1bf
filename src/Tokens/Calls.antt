-- ===== src/Tokens/Calls.antt =====
-- What a token service answers, whatever it was asked before.
use ai_backend_api.Base.{
  ℕ, ◌≡◌, refl, sym, ap, ◌∙◌, some, List, [], ◌∷◌, ◌++◌, map, length, take, if◌then◌else◌, inl, inr,
  ◌≤◌, ◌<◌, le→leb, lt→not-leb, drop, take-append-drop, Bool-cases, Option-cases, some_inj,
}
use ai_backend_api.Base.Text.{Text, text_eq, text_eq_iff}
use ai_backend_api.Base.Dict.{Dict, get, put, get-put}
use ai_backend_api.Base.Result.{Result, ok}
use ai_backend_api.Errors.{Exc}
use ai_backend_api.Tokens.{
  Tiktoken, new_encoding, get_encoding, count_encoded, count_tokens, truncated,
  truncate_to_token_limit,
}

pub data Call : Type 0 where
  count : Text → Text → Call
  truncate : Text → ℕ → Text → Call

pub data Answer : Type 0 where
  counted : Result Exc ℕ → Answer
  cut : Result Exc Text → Answer

module _ (library : Tiktoken) where
  -- A call to the service with these encodings.
  unfoldable pub call : Call → Dict library.Encoding → Answer × Dict library.Encoding
  unfolding count_tokens truncate_to_token_limit
  call (count text model) encodings =
      let (n, encodings') = count_tokens library text model encodings in (counted n, encodings')
  call (truncate text max_tokens model) encodings =
      let (t, encodings') = truncate_to_token_limit library text max_tokens model encodings in
      (cut t, encodings')

  unfoldable pub calls : List Call → Dict library.Encoding → List Answer × Dict library.Encoding
  calls [] encodings = ([], encodings)
  calls (c ∷ cs) encodings =
      let (a, encodings1) = call c encodings in
      let (rest, encodings2) = calls cs encodings1 in (a ∷ rest, encodings2)

  -- What a service without encodings of its own answers.
  unfoldable pub uncached : Call → Answer
  unfolding new_encoding
  uncached (count text model) =
      counted (count_encoded library (library.encode (new_encoding library model) text))
  uncached (truncate text max_tokens model) =
      let encoding = new_encoding library model in
      cut (truncated library encoding text max_tokens (library.encode encoding text))

  -- Every encoding is the one of its model.
  pub IsCached : Dict library.Encoding → Type 0
  IsCached encodings =
      (model : Text) (e : library.Encoding)
      → get encodings model ≡ some e
      → e ≡ new_encoding library model

  IsCached-put :
      (model : Text) (encodings : Dict library.Encoding)
      → IsCached encodings
      → IsCached (put encodings model (new_encoding library model))
  unfolding IsCached
  IsCached-put model encodings h other e found =
      let looked : (if text_eq model other
            then some (new_encoding library model)
            else get encodings other)
          ≡ some e =
        sym (get-put encodings model (new_encoding library model) other) ∙ found in
      elim (Bool-cases (text_eq model other)) [
        | inl same ↦
            let it : some (new_encoding library model) ≡ some e =
              ap (λ b. if b then some (new_encoding library model) else get encodings other)
                (sym same)
              ∙ looked in
            sym (some_inj it) ∙ ap (new_encoding library) ((text_eq_iff model other).0 same)
        | inr different ↦ h other e (
            ap (λ b. if b then some (new_encoding library model) else get encodings other)
              (sym different)
            ∙ looked)
      ]

  get_encoding_lem :
      (model : Text) (encodings : Dict library.Encoding)
      → IsCached encodings
      → ((get_encoding library model encodings).0 ≡ new_encoding library model)
        × IsCached (get_encoding library model encodings).1
  unfolding get_encoding IsCached
  get_encoding_lem model encodings h = elim (Option-cases (get encodings model)) [
    | inl missing ↦ rw (get_encoding, missing) (refl, IsCached-put model encodings h)
    | inr (e, found) ↦ rw (get_encoding, found) (h model e found, h)
  ]

  call_lem :
      (c : Call) (encodings : Dict library.Encoding)
      → IsCached encodings
      → ((call c encodings).0 ≡ uncached c) × IsCached (call c encodings).1
  unfolding call uncached count_tokens truncate_to_token_limit
  call_lem (count text model) encodings h =
      let (same, cached) = get_encoding_lem model encodings h in
      (ap (λ e. counted (count_encoded library (library.encode e text))) same, cached)
  call_lem (truncate text max_tokens model) encodings h =
      let (same, cached) = get_encoding_lem model encodings h in
      (ap (λ e. cut (truncated library e text max_tokens (library.encode e text))) same, cached)

  calls-IsCached :
      (cs : List Call) (encodings : Dict library.Encoding)
      → IsCached encodings
      → ((calls cs encodings).0 ≡ map uncached cs) × IsCached (calls cs encodings).1
  unfolding calls
  calls-IsCached [] encodings h = (refl, h)
  calls-IsCached (c ∷ cs) encodings h =
      let (first, cached) = call_lem c encodings h in
      let (rest, all) = calls-IsCached cs (call c encodings).1 cached in
      (λ i. first i ∷ rest i, all)

  -- Whatever calls a new service gets, it answers each one as a service would that makes the
  -- encoding anew for each call, the errors included.
  pub calls-uncached : (cs : List Call) → (calls cs []).0 ≡ map uncached cs
  unfolding IsCached get
  calls-uncached cs = (calls-IsCached cs [] (λ model e h. absurd (cc))).0

  -- A text of at most `max_tokens` tokens is left as it is. Of a longer one a beginning is left,
  -- where the tokens of the text are whole characters, that is, where the text that the tokens give
  -- is the texts of two parts of them, one after the other.
  pub truncate-IsPrefix :
      (text : Text) (max_tokens : ℕ) (model : Text) (encodings : Dict library.Encoding)
      (tokens : List ℕ)
      → library.encode (get_encoding library model encodings).0 text ≡ ok tokens
      → (length tokens ≤ max_tokens
          → (truncate_to_token_limit library text max_tokens model encodings).0 ≡ ok text)
        × (max_tokens < length tokens
            → library.decode (get_encoding library model encodings).0 tokens ≡ text
            → ((xs ys : List ℕ)
                → library.decode (get_encoding library model encodings).0 (xs ++ ys)
                  ≡ library.decode (get_encoding library model encodings).0 xs
                    ++ library.decode (get_encoding library model encodings).0 ys)
            → (kept rest : Text) × (text ≡ kept ++ rest)
              × ((truncate_to_token_limit library text max_tokens model encodings).0 ≡ ok kept))
  unfolding truncate_to_token_limit
  truncate-IsPrefix text max_tokens model encodings tokens encoded = (
    λ fits. rw (encoded, le→leb (length tokens) max_tokens fits) refl,
    λ longer whole split. (
      library.decode (get_encoding library model encodings).0 (take max_tokens tokens),
      library.decode (get_encoding library model encodings).0 (drop max_tokens tokens),
      sym whole
          ∙ ap (library.decode (get_encoding library model encodings).0)
              (sym (take-append-drop max_tokens tokens))
          ∙ split (take max_tokens tokens) (drop max_tokens tokens),
      rw (encoded, lt→not-leb max_tokens (length tokens) longer) refl,
    ),
  )
