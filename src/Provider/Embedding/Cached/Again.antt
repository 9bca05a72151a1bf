-- ===== src/Provider/Embedding/Cached/Again.antt =====
-- A batch that was embedded is answered from the cache.
use ai_backend_api.Base.{
  ℕ, Bool, ◌≡◌, refl, sym, ap, ◌∙◌, true, false, Option, none, some, List, [], ◌∷◌, map, All, arith,
  Bool-cases, Option-cases, inl, inr,
}
use ai_backend_api.Base.Text.{Text, text_eq, text_eq_iff}
use ai_backend_api.Base.Result.{Result, ok, err}
use ai_backend_api.Cache.{CacheLibrary, Redis, embedding_key, get_embedding, set_embedding}
use ai_backend_api.Cache.Embeddings.{IsCodec, get-set_embedding}
use ai_backend_api.Entity.Values.{EmbeddingVector, IsWellSized}
use ai_backend_api.Errors.{Exc}
use ai_backend_api.Provider.Embedding.{ApiOutcome, call_openai, uncached_from, embed_batch, fill}
use ai_backend_api.Provider.Embedding.Merge.{vector_of, embed_batch-merges, embeddings}
use ai_backend_api.Provider.Embedding.Cached.{
  or_none, cached, lookups, store_fresh, after_call, embed_batch_cached,
}
use ai_backend_api.Provider.Embedding.Cached.Uncached.{
  occurs, All-map, All-both, missing-occurs, found-occurs, All-uncached, uncached_of_found,
}

module _ (library : CacheLibrary) (model : Text) where
  -- Different texts of a batch have different keys.
  abbrev pub IsApart : List Text → Type 0
  IsApart texts =
      All
        (λ t.
          All (λ u. embedding_key library u model ≡ embedding_key library t model → u ≡ t) texts)
        texts

module _ (library : CacheLibrary) (model : Text) (embedding_of : Text → EmbeddingVector)
    (accepts : Text → Redis → Bool)
    (all : (t : Text) (redis : Redis) → accepts t redis ≡ true) where
  abbrev fresh_of : List (ℕ × Text) → List EmbeddingVector
  fresh_of us = map (λ u. embedding_of u.1) us

  module _ (codec : IsCodec library) (sized : (t : Text) → IsWellSized (embedding_of t))
      (t : Text) where
    abbrev IsApartFrom : List (ℕ × Text) → Type 0
    IsApartFrom us =
        All (λ u. embedding_key library u.1 model ≡ embedding_key library t model → u.1 ≡ t) us

    abbrev stored : List (ℕ × Text) → Redis → Result Exc (Option EmbeddingVector)
    stored us redis =
        get_embedding library t model (store_fresh library model accepts us (fresh_of us) redis)

    set-other :
        (u : Text) (redis : Redis)
        → (embedding_key library u model ≡ embedding_key library t model → u ≡ t)
        → text_eq u t ≡ false
        → get_embedding library t model (set_embedding library u model (embedding_of u) redis)
          ≡ get_embedding library t model redis
    set-other u redis apart other =
        get-set_embedding library u model t model (embedding_of u) redis codec (sized u)
        ∙ elim (Bool-cases
            (text_eq (embedding_key library u model) (embedding_key library t model))) [
              | inl same ↦
                  let eq : u ≡ t = apart ((text_eq_iff _ _).0 same) in
                  absurd (ground (arith, text_eq_iff u t))
              | inr differ ↦ rw differ refl
            ]

    set-same :
        (u : Text) (redis : Redis)
        → text_eq u t ≡ true
        → get_embedding library t model (set_embedding library u model (embedding_of u) redis)
          ≡ ok (some (embedding_of t))
    set-same u redis same =
        let eq : u ≡ t = (text_eq_iff u t).0 same in
        let keys : embedding_key library u model ≡ embedding_key library t model =
          ap (λ x. embedding_key library x model) eq in
        get-set_embedding library u model t model (embedding_of u) redis codec (sized u)
        ∙ (rw ((text_eq_iff (embedding_key library u model) (embedding_key library t model)).1 keys)
              refl
            ∙ ap (λ x. ok (some (embedding_of x))) eq)

    stored-missed :
        (us : List (ℕ × Text)) (redis : Redis)
        → IsApartFrom us
        → occurs t us ≡ false
        → stored us redis ≡ get_embedding library t model redis
    unfolding store_fresh occurs
    stored-missed [] redis apart h = refl
    stored-missed ((i, u) ∷ us) redis apart h =
        let other : text_eq u t ≡ false = ground arith in
        let never : occurs t us ≡ false = ground arith in
        rw (all u redis) (
          stored-missed us (set_embedding library u model (embedding_of u) redis) apart.1 never
          ∙ set-other u redis apart.0 other)

    stored-hit :
        (us : List (ℕ × Text)) (redis : Redis)
        → IsApartFrom us
        → occurs t us ≡ true
        → stored us redis ≡ ok (some (embedding_of t))
    unfolding store_fresh occurs
    stored-hit [] redis apart h = absurd (cc)
    stored-hit ((i, u) ∷ us) redis apart h = elim (Bool-cases (occurs t us)) [
      | inl later ↦
          rw (all u redis)
            (stored-hit us (set_embedding library u model (embedding_of u) redis) apart.1 later)
      | inr never ↦
          let same : text_eq u t ≡ true = ground arith in
          rw (all u redis) (
            stored-missed us (set_embedding library u model (embedding_of u) redis) apart.1 never
            ∙ set-same u redis same)
    ]

  or_none-some :
      (r : Result Exc (Option EmbeddingVector)) (v : EmbeddingVector)
      → or_none r ≡ some v
      → r ≡ ok (some v)
  or_none-some (ok o) v e = ap (λ x. ok x) e
  or_none-some (err x) v e = absurd (cc)

  -- After the writes, each text of the batch is found, with its vector.
  stored-found :
      (codec : IsCodec library) (sized : (t : Text) → IsWellSized (embedding_of t)) (t : Text)
      (texts : List Text) (redis : Redis)
      → All (λ u. embedding_key library u model ≡ embedding_key library t model → u ≡ t) texts
      → (cached library model redis t ≡ none
          → occurs t (uncached_from (cached library model redis) 0 texts) ≡ true)
      → stored codec sized t (uncached_from (cached library model redis) 0 texts) redis
        ≡ ok (some (vector_of (cached library model redis) embedding_of t))
  stored-found codec sized t texts redis apart missing =
      let lookup : Text → Option EmbeddingVector = cached library model redis in
      let us : List (ℕ × Text) = uncached_from lookup 0 texts in
      let apart' : IsApartFrom codec sized t us =
        All-uncached lookup
          (λ u. embedding_key library u model ≡ embedding_key library t model → u ≡ t) 0 texts
          apart in
      elim (Option-cases (lookup t)) [
        | inl e ↦ stored-hit codec sized t us redis apart' (missing e) ∙ rw e refl
        | inr (v, e) ↦
            stored-missed codec sized t us redis apart' (found-occurs lookup t v 0 texts e)
            ∙ (or_none-some (get_embedding library t model redis) v (unfold cached in e)
                ∙ rw e refl)
      ]

  lookups-return :
      (texts : List Text) (redis : Redis) (f : Text → EmbeddingVector)
      → All (λ t. get_embedding library t model redis ≡ ok (some (f t))) texts
      → lookups library model texts redis ≡ ok tt
  unfolding lookups
  lookups-return [] redis f h = refl
  lookups-return (t ∷ ts) redis f h = rw h.0 (lookups-return ts redis f h.1)

  after_none :
      (takes : Text → Redis → Bool) (r : Result Exc (List EmbeddingVector)) (redis : Redis)
      → after_call library model takes [] r redis ≡ redis
  unfolding store_fresh
  after_none takes (ok vs) redis = refl
  after_none takes (err e) redis = refl

  -- A batch whose texts are all in the cache needs no API, and leaves the cache alone.
  from_cache :
      (takes : Text → Redis → Bool) (dimensions : ℕ) (api : List Text → ApiOutcome)
      (texts : List Text) (redis : Redis) (f : Text → EmbeddingVector)
      → All (λ t. get_embedding library t model redis ≡ ok (some (f t))) texts
      → embed_batch_cached library model takes dimensions api texts redis
        ≡ (ok (map (λ t. some (f t)) texts), redis)
  unfolding embed_batch_cached embed_batch fill store_fresh
  from_cache takes dimensions api texts redis f h =
      let lookup : Text → Option EmbeddingVector = cached library model redis in
      let all : All (λ t. lookup t ≡ some (f t)) texts =
        All-map texts (λ t e. unfold cached in ap or_none e) h in
      let (none_left, same) = uncached_of_found lookup f 0 texts all in
      rw (lookups-return texts redis f h, none_left)
        (λ i. (ok (same i), after_none takes (call_openai model dimensions (api [])) redis i))

  stores :
      (dimensions : ℕ) (api : List Text → ApiOutcome) (texts : List Text) (redis : Redis)
      → ((asked : List Text)
          → call_openai model dimensions (api asked) ≡ ok (map embedding_of asked))
      → lookups library model texts redis ≡ ok tt
      → embed_batch_cached library model accepts dimensions api texts redis ≡ (
        ok (map (λ t. some (vector_of (cached library model redis) embedding_of t)) texts),
        (let us = uncached_from (cached library model redis) 0 texts in
            store_fresh library model accepts us (fresh_of us) redis),
      )
  unfolding embed_batch_cached
  stores dimensions api texts redis answers undamaged =
      let us : List (ℕ × Text) = uncached_from (cached library model redis) 0 texts in
      rw undamaged (λ i. (
        embed_batch-merges (cached library model redis) embedding_of model dimensions api texts
            answers i,
        after_call library model accepts us
            ((answers (map (λ u. u.1) us)
                ∙ ap (λ vs. ok vs) (embeddings (cached library model redis) embedding_of us))
              i)
            redis,
      ))

  -- When cached texts are read as they were written and every vector has its number of dimensions:
  -- if the API answers every list of texts with the vector of each text in turn, the look-ups raise
  -- nothing, Redis accepts every write of the first call and different texts of the batch have
  -- different keys, embedding the batch once more, whatever the API does and whichever writes Redis
  -- accepts then, gives the same vectors from the cache alone: the cached ones where the first call
  -- found one, the fresh ones elsewhere; and the cache stays as it is.
  pub embed_batch-again :
      (dimensions : ℕ) (api later : List Text → ApiOutcome) (takes : Text → Redis → Bool)
      (texts : List Text) (redis : Redis)
      → IsCodec library
      → ((t : Text) → IsWellSized (embedding_of t))
      → ((asked : List Text)
          → call_openai model dimensions (api asked) ≡ ok (map embedding_of asked))
      → lookups library model texts redis ≡ ok tt
      → IsApart library model texts
      → let first = embed_batch_cached library model accepts dimensions api texts redis in
        (first.0
          ≡ ok (map (λ t. some (vector_of (cached library model redis) embedding_of t)) texts))
        × (embed_batch_cached library model takes dimensions later texts first.1 ≡ first)
  embed_batch-again dimensions api later takes texts redis codec sized answers undamaged apart =
      let lookup : Text → Option EmbeddingVector = cached library model redis in
      let us : List (ℕ × Text) = uncached_from lookup 0 texts in
      let first = stores dimensions api texts redis answers undamaged in
      let after : Redis = store_fresh library model accepts us (fresh_of us) redis in
      let found : All
          (λ t. get_embedding library t model after ≡ ok (some (vector_of lookup embedding_of t)))
          texts =
        All-both texts (λ t a m. stored-found codec sized t texts redis a m) apart
          (missing-occurs lookup 0 texts) in
      (
        ap (λ p. p.0) first,
        ap (λ p. embed_batch_cached library model takes dimensions later texts p.1) first
            ∙ (from_cache takes dimensions later texts after (vector_of lookup embedding_of) found
                ∙ sym first),
      )
