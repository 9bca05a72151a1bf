-- ===== src/Provider/Embedding/Cached/Uncached.antt =====
-- Which texts of a batch are embedded: those that the cache does not hold.
use ai_backend_api.Base.{
  ℕ, suc, ◌≡◌, refl, ◌∙◌, Bool, true, false, Option, none, some, List, [], ◌∷◌, map, All, arith,
  if◌then◌else◌, Bool-cases, inl, inr,
}
use ai_backend_api.Base.Text.{Text, text_eq, text_eq_iff}
use ai_backend_api.Entity.Values.{EmbeddingVector}
use ai_backend_api.Provider.Embedding.{note_uncached, uncached_from}

-- The text is one of those to embed.
unfoldable pub occurs : Text → List (ℕ × Text) → Bool
occurs t [] = false
occurs t ((i, u) ∷ us) = let rest = occurs t us in if text_eq u t then true else rest

pub All-map :
    {A : Type 0} {P Q : A → Type 0} (xs : List A) → ((x : A) → P x → Q x) → All P xs → All Q xs
All-map [] f h = tt
All-map (x ∷ xs) f h = (f x h.0, All-map xs f h.1)

pub All-both :
    {A : Type 0} {P Q R : A → Type 0} (xs : List A)
    → ((x : A) → P x → Q x → R x)
    → All P xs
    → All Q xs
    → All R xs
All-both [] f h k = tt
All-both (x ∷ xs) f h k = (f x h.0 k.0, All-both xs f h.1 k.1)

module _ (lookup : Text → Option EmbeddingVector) where
  occurs-note :
      (t : Text) (o : Option EmbeddingVector) (i : ℕ) (u : Text) (us : List (ℕ × Text))
      → occurs t us ≡ true
      → occurs t (note_uncached o i u us) ≡ true
  unfolding occurs
  occurs-note t none i u us h = ground arith
  occurs-note t (some v) i u us h = h

  occurs-head :
      (t : Text) (o : Option EmbeddingVector) (i : ℕ) (us : List (ℕ × Text))
      → o ≡ none
      → occurs t (note_uncached o i t us) ≡ true
  unfolding occurs
  occurs-head t none i us h = ground (arith, text_eq_iff t t)
  occurs-head t (some v) i us h = absurd (cc)

  pub missing-occurs :
      (i : ℕ) (texts : List Text)
      → All (λ t. lookup t ≡ none → occurs t (uncached_from lookup i texts) ≡ true) texts
  unfolding uncached_from
  missing-occurs i [] = tt
  missing-occurs i (t ∷ ts) = (
    occurs-head t (lookup t) i (uncached_from lookup (suc i) ts),
    All-map ts (λ u f e. occurs-note u (lookup t) i t (uncached_from lookup (suc i) ts) (f e))
        (missing-occurs (suc i) ts),
  )

  found-note :
      (t : Text) (v : EmbeddingVector) (u : Text) (o : Option EmbeddingVector) (i : ℕ)
      (us : List (ℕ × Text))
      → lookup t ≡ some v
      → lookup u ≡ o
      → occurs t us ≡ false
      → occurs t (note_uncached o i u us) ≡ false
  unfolding occurs
  found-note t v u none i us e f h = elim (Bool-cases (text_eq u t)) [
    | inl same ↦ let eq : u ≡ t = (text_eq_iff u t).0 same in absurd (cc)
    | inr other ↦ rw (other, h) refl
  ]
  found-note t v u (some w) i us e f h = h

  pub found-occurs :
      (t : Text) (v : EmbeddingVector) (i : ℕ) (texts : List Text)
      → lookup t ≡ some v
      → occurs t (uncached_from lookup i texts) ≡ false
  unfolding uncached_from occurs
  found-occurs t v i [] e = refl
  found-occurs t v i (u ∷ us) e =
      found-note t v u (lookup u) i (uncached_from lookup (suc i) us) e refl
        (found-occurs t v (suc i) us e)

  All-note :
      (P : Text → Type 0) (o : Option EmbeddingVector) (i : ℕ) (u : Text) (us : List (ℕ × Text))
      → P u
      → All (λ x. P x.1) us
      → All (λ x. P x.1) (note_uncached o i u us)
  All-note P none i u us p h = (p, h)
  All-note P (some v) i u us p h = h

  pub All-uncached :
      (P : Text → Type 0) (i : ℕ) (texts : List Text)
      → All P texts
      → All (λ x. P x.1) (uncached_from lookup i texts)
  unfolding uncached_from
  All-uncached P i [] h = tt
  All-uncached P i (t ∷ ts) h =
      All-note P (lookup t) i t (uncached_from lookup (suc i) ts) h.0
        (All-uncached P (suc i) ts h.1)

  note_of_some :
      (o : Option EmbeddingVector) (v : EmbeddingVector) (i : ℕ) (t : Text) (us : List (ℕ × Text))
      → o ≡ some v
      → note_uncached o i t us ≡ us
  note_of_some none v i t us e = absurd (cc)
  note_of_some (some w) v i t us e = refl

  -- Where every text is found, nothing is left to embed.
  pub uncached_of_found :
      (f : Text → EmbeddingVector) (i : ℕ) (texts : List Text)
      → All (λ t. lookup t ≡ some (f t)) texts
      → (uncached_from lookup i texts ≡ []) × (map lookup texts ≡ map (λ t. some (f t)) texts)
  unfolding uncached_from
  uncached_of_found f i [] h = (refl, refl)
  uncached_of_found f i (t ∷ ts) h =
      let (none_left, same) = uncached_of_found f (suc i) ts h.1 in
      (
        note_of_some (lookup t) (f t) i t (uncached_from lookup (suc i) ts) h.0 ∙ none_left,
        rw (h.0, same) refl,
      )
