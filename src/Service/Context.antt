-- ===== src/Service/Context.antt =====
-- app/application/services/context_service.py. The token counter is the abstract TokenService.
use ai_backend_api.Base.{
  ℕ, suc, ◌+◌, ◌*◌, ◌/◌, ◌%◌, ◌≤◌, ◌<◌, Bool, ◌&&◌, ◌||◌, List, [], ◌∷◌, ◌++◌, ltb, leb, ◌==◌,
  if◌then◌else◌, filter_by, length, ◌≡◌, refl, ap, subst, inl, inr, Bool-cases, arith, ltb→lt,
}
use ai_backend_api.Base.Text.{Text, codes, show, join, is_nonempty}
use ai_backend_api.Entity.Chat.{SearchResult, score_one}

-- `f"{score:.0%}"`: to the nearest percent, a tie to the even one.
unfoldable pub percent : ℕ → Text
percent score =
    let whole = score * 100 / score_one in
    let part = (score * 100) % score_one * 2 in
    show
      (if ltb score_one part || (part == score_one && (whole % 2 == 1)) then suc whole else whole)
    ++ codes "%"

-- `_format_block(index, result)`
unfoldable pub format_block : ℕ → SearchResult → Text
unfolding percent
format_block index result =
    codes "["
    ++ (show index
        ++ (codes "] Source: \""
            ++ ((if is_nonempty result.document_title
                  then result.document_title
                  else codes "Untitled")
                ++ (codes "\" (chunk "
                    ++ (show result.chunk_index
                        ++ (codes ", relevance "
                            ++ (percent result.score ++ (codes ")\n" ++ result.content))))))))

module _ (count_tokens : Text → Text → ℕ) (max_context_tokens score_threshold : ℕ)
    (model : Text) where
  -- The loop from the i-th relevant result on: the blocks and the results that it appends.
  unfoldable pub fit : ℕ → ℕ → List SearchResult → List Text × List SearchResult
  fit i current_tokens [] = ([], [])
  fit i current_tokens (result ∷ results) =
      let block = format_block (suc i) result in
      let block_tokens = count_tokens block model in
      let (blocks, used_results) = fit (suc i) (current_tokens + block_tokens) results in
      if ltb max_context_tokens (current_tokens + block_tokens)
      then ([], [])
      else (block ∷ blocks, result ∷ used_results)

  abbrev pub is_relevant : SearchResult → Bool
  is_relevant r = leb score_threshold r.score

  -- Both early returns are the empty case of the loop.
  unfoldable pub build_context : List SearchResult → Text × List SearchResult
  unfolding fit
  build_context search_results =
      let relevant = filter_by is_relevant search_results in
      let (blocks, used_results) = fit 0 0 relevant in (join (codes "\n\n") blocks, used_results)

  -- The citation blocks of results, numbered after `i`.
  unfoldable pub numbered : ℕ → List SearchResult → List Text
  numbered i [] = []
  numbered i (r ∷ rs) = format_block (suc i) r ∷ numbered (suc i) rs

  unfoldable pub tokens : List Text → ℕ
  tokens [] = 0
  tokens (b ∷ bs) = count_tokens b model + tokens bs

  -- The next result after those used does not fit.
  abbrev pub IsFull : ℕ → ℕ → List SearchResult → Type 0
  IsFull i spent [] = Unit
  IsFull i spent (r ∷ rs) = max_context_tokens < spent + count_tokens (format_block (suc i) r) model

  -- What the loop returns from the i-th result on, `spent` tokens being used.
  pub record IsFit (i spent : ℕ) (results : List SearchResult) (blocks : List Text)
      (used : List SearchResult) : Type 0 where
    pub rest : List SearchResult
    pub split : results ≡ used ++ rest
    pub cited : blocks ≡ numbered i used
    pub bounded : spent ≤ max_context_tokens → spent + tokens blocks ≤ max_context_tokens
    pub full : IsFull (i + length used) (spent + tokens blocks) rest

  fit-IsFit :
      (i spent : ℕ) (results : List SearchResult)
      → IsFit i spent results (fit i spent results).0 (fit i spent results).1
  unfolding fit numbered tokens
  fit-IsFit i spent [] = record {
    rest = [];
    split = refl;
    cited = refl;
    bounded = λ h. omega (arith, h);
    full = tt;
  }
  fit-IsFit i spent (r ∷ rs) =
      let t = count_tokens (format_block (suc i) r) model in
      elim (Bool-cases (ltb max_context_tokens (spent + t))) [
        | inl over ↦
            let e1 : i + 0 ≡ i = omega arith in
            let e2 : spent + 0 ≡ spent = omega arith in
            rw over (record {
              rest = r ∷ rs;
              split = refl;
              cited = refl;
              bounded = λ h. omega (arith, h);
              full = rw (e1, e2) (ltb→lt max_context_tokens (spent + t) over);
            })
        | inr fits ↦
            let ih = fit-IsFit (suc i) (spent + t) rs in
            let below : spent + t ≤ max_context_tokens = ground arith in
            let e1 : suc i + length (fit (suc i) (spent + t) rs).1
                ≡ i + suc (length (fit (suc i) (spent + t) rs).1) =
              omega arith in
            let e2 : (spent + t) + tokens (fit (suc i) (spent + t) rs).0
                ≡ spent + (t + tokens (fit (suc i) (spent + t) rs).0) =
              omega arith in
            rw fits (record {
              rest = ih.rest;
              split = ap (λ (l : List SearchResult). r ∷ l) ih.split;
              cited = ap (λ (l : List Text). format_block (suc i) r ∷ l) ih.cited;
              bounded = λ h. omega (arith, ih.bounded below);
              full =
                  subst
                    (λ n. IsFull n (spent + (t + tokens (fit (suc i) (spent + t) rs).0)) ih.rest) e1
                    (subst (λ n. IsFull (suc i + length (fit (suc i) (spent + t) rs).1) n ih.rest)
                      e2 ih.full);
            })
      ]

  -- `build_context` uses a prefix of the results that reach the score threshold, in their order; the
  -- context is their citation blocks, numbered from 1 and joined by blank lines, whose tokens
  -- are within the budget; and the prefix is the longest such: the next relevant result, if there
  -- is one, would exceed the budget.
  pub build_context-IsFit :
      (results : List SearchResult)
      → (blocks : List Text) × ((build_context results).0 ≡ join (codes "\n\n") blocks)
        × IsFit 0 0 (filter_by is_relevant results) blocks (build_context results).1
        × (tokens blocks ≤ max_context_tokens)
  unfolding build_context
  build_context-IsFit results =
      let f = fit-IsFit 0 0 (filter_by is_relevant results) in
      (_, refl, f, omega (arith, f.bounded (omega arith)))
