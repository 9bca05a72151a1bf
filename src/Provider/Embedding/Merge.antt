-- ===== src/Provider/Embedding/Merge.antt =====
-- A batch from the cache and the API.
use ai_backend_api.Base.{
  ℕ, suc, Option, none, some, List, [], ◌∷◌, ◌++◌, map, set, length, append_assoc, length-append,
  ◌≡◌, refl, sym, ap, ◌∙◌, arith, Option-cases, inl, inr,
}
use ai_backend_api.Base.Text.{Text}
use ai_backend_api.Base.Result.{Result, ok}
use ai_backend_api.Entity.Values.{EmbeddingVector}
use ai_backend_api.Errors.{Exc}
use ai_backend_api.Provider.Embedding.{
  ApiOutcome, call_openai, uncached_from, fill, embed_batch, finish_batch,
}

module _ {A : Type 0} where
  set-append : (xs ys : List A) (y v : A) → set (xs ++ (y ∷ ys)) (length xs) v ≡ xs ++ (v ∷ ys)
  set-append [] ys y v = refl
  set-append (x ∷ xs) ys y v = ap (λ (l : List A). x ∷ l) (set-append xs ys y v)

module _ (lookup : Text → Option EmbeddingVector) (embedding_of : Text → EmbeddingVector) where
  abbrev or_embedding : Text → Option EmbeddingVector → EmbeddingVector
  or_embedding t none = embedding_of t
  or_embedding t (some v) = v

  -- One text after the other: the cached vector, or the text's own.
  abbrev pub vector_of : Text → EmbeddingVector
  vector_of t = or_embedding t (lookup t)

  -- The loop over the texts from the n-th on, whose vectors are their own.
  filled : ℕ → List Text → List (Option EmbeddingVector) → List (Option EmbeddingVector)
  unfolding fill
  filled n texts results =
      fill lookup (uncached_from lookup n texts)
        (map (λ u. embedding_of u.1) (uncached_from lookup n texts)) results

  fill-next :
      (before : List (Option EmbeddingVector)) (x : Option EmbeddingVector) (texts : List Text)
      → filled (length (before ++ (x ∷ []))) texts ((before ++ (x ∷ [])) ++ map lookup texts)
        ≡ (before ++ (x ∷ [])) ++ map (λ t. some (vector_of t)) texts
      → filled (suc (length before)) texts (before ++ (x ∷ map lookup texts))
        ≡ before ++ (x ∷ map (λ t. some (vector_of t)) texts)
  fill-next before x texts ih =
      let e : length (before ++ (x ∷ [])) ≡ suc (length before) =
        omega (arith, length-append before (x ∷ [])) in
      ap (λ n. filled n texts (before ++ (x ∷ map lookup texts))) (sym e)
      ∙ (ap (filled (length (before ++ (x ∷ []))) texts)
            (sym (append_assoc before (x ∷ []) (map lookup texts)))
          ∙ (ih ∙ append_assoc before (x ∷ []) (map (λ t. some (vector_of t)) texts)))

  fill-missing :
      (before : List (Option EmbeddingVector)) (t : Text) (ts : List Text)
      → lookup t ≡ none
      → filled (suc (length before)) ts (before ++ (some (embedding_of t) ∷ map lookup ts))
        ≡ before ++ (some (embedding_of t) ∷ map (λ x. some (vector_of x)) ts)
      → filled (length before) (t ∷ ts) (before ++ map lookup (t ∷ ts))
        ≡ before ++ map (λ x. some (vector_of x)) (t ∷ ts)
  unfolding filled uncached_from fill
  fill-missing before t ts missing next =
      let us : List (ℕ × Text) = uncached_from lookup (suc (length before)) ts in
      rw missing (
        ap (fill lookup us (map (λ u. embedding_of u.1) us))
          (set-append before (map lookup ts) none (some (embedding_of t)))
        ∙ next)

  fill-cached :
      (before : List (Option EmbeddingVector)) (t : Text) (ts : List Text) (v : EmbeddingVector)
      → lookup t ≡ some v
      → filled (suc (length before)) ts (before ++ (some v ∷ map lookup ts))
        ≡ before ++ (some v ∷ map (λ x. some (vector_of x)) ts)
      → filled (length before) (t ∷ ts) (before ++ map lookup (t ∷ ts))
        ≡ before ++ map (λ x. some (vector_of x)) (t ∷ ts)
  unfolding filled uncached_from
  fill-cached before t ts v hit next = rw hit next

  fill-from :
      (before : List (Option EmbeddingVector)) (texts : List Text)
      → filled (length before) texts (before ++ map lookup texts)
        ≡ before ++ map (λ t. some (vector_of t)) texts
  fill-from before [] = unfold filled uncached_from fill in refl
  fill-from before (t ∷ ts) = elim (Option-cases (lookup t)) [
    | inl missing ↦
        let x : Option EmbeddingVector = some (embedding_of t) in
        fill-missing before t ts missing (fill-next before x ts (fill-from (before ++ (x ∷ [])) ts))
    | inr (v, hit) ↦
        fill-cached before t ts v hit
          (fill-next before (some v) ts (fill-from (before ++ (some v ∷ [])) ts))
  ]

  pub embeddings :
      (us : List (ℕ × Text)) → map embedding_of (map (λ u. u.1) us) ≡ map (λ u. embedding_of u.1) us
  embeddings [] = refl
  embeddings (u ∷ us) = ap (λ (l : List EmbeddingVector). embedding_of (u.1) ∷ l) (embeddings us)

  finish-merges :
      (texts : List Text) (us : List (ℕ × Text)) (fresh : Result Exc (List EmbeddingVector))
      → fresh ≡ ok (map (λ u. embedding_of u.1) us)
      → finish_batch lookup texts us fresh
        ≡ ok (fill lookup us (map (λ u. embedding_of u.1) us) (map lookup texts))
  unfolding finish_batch
  finish-merges texts [] fresh e = unfold fill in refl
  finish-merges texts (u ∷ us) fresh e = rw e refl

  -- When the API answers every list of texts with the vector of each text in turn, the batch is
  -- answered with one vector per text, in the order of the texts: the cached one where the cache
  -- holds the text, the fresh one elsewhere.
  pub embed_batch-merges :
      (model : Text) (dimensions : ℕ) (api : List Text → ApiOutcome) (texts : List Text)
      → ((asked : List Text)
          → call_openai model dimensions (api asked) ≡ ok (map embedding_of asked))
      → embed_batch lookup model dimensions api texts ≡ ok (map (λ t. some (vector_of t)) texts)
  unfolding embed_batch
  embed_batch-merges model dimensions api texts answers =
      let us : List (ℕ × Text) = uncached_from lookup 0 texts in
      finish-merges texts us (call_openai model dimensions (api (map (λ u. u.1) us)))
        (answers (map (λ u. u.1) us) ∙ ap (λ vs. ok vs) (embeddings us))
      ∙ ap (λ vs. ok vs) (unfold filled in fill-from [] texts)
