-- ===== src/UseCase/Chat/Sources.antt =====
-- The sources of an answer, and the results of the search as the chat reads them back.
use ai_backend_api.Base.{
  ℕ, zero, suc, ◌+◌, ◌≤◌, Option, none, some, List, [], ◌∷◌, map, take, length, length-take,
  get_elem?, ◌≡◌, refl, ap, subst, All, arith, some_inj, le→leb,
}
use ai_backend_api.Base.Text.{Text}
use ai_backend_api.Base.Result.{ok}
use ai_backend_api.Entity.Values.{chunk_id_from_str, document_id_from_str}
use ai_backend_api.Entity.Chat.{SearchResult, search_result, score_one}
use ai_backend_api.Service.Context.{format_block, numbered}
use ai_backend_api.UseCase.Search.{result_dto}
use ai_backend_api.UseCase.Chat.{
  ChatBackend, SourceDto, sources_from, build_sources, domain_result, domain_results,
}

-- A source cites a result under a number.
pub record IsSourceOf (index : ℕ) (r : SearchResult) (source : SourceDto) : Type 0 where
  pub number : source.index ≡ index
  pub chunk : source.chunk_id ≡ r.chunk_id.value
  pub document : source.document_id ≡ r.document_id.value
  pub title : source.document_title ≡ r.document_title
  pub preview : source.content ≡ take 200 r.content
  pub short : length source.content ≤ 200

module _ (count_tokens : Text → Text → ℕ) (max_context_tokens score_threshold : ℕ)
    (model : Text) where
  -- The i-th of a list of blocks and of a list of sources cite `r` under the number `n`.
  Cited : List Text → List SourceDto → ℕ → ℕ → SearchResult → Type 0
  Cited blocks sources i n r =
      (get_elem? blocks i ≡ some (format_block n r))
      × (source : SourceDto) × (get_elem? sources i ≡ some source)
      × IsSourceOf n r source

  from-Cited :
      (base : ℕ) (results : List SearchResult) (i : ℕ) (r : SearchResult)
      → get_elem? results i ≡ some r
      → Cited
          (numbered count_tokens max_context_tokens score_threshold model base results)
          (sources_from base results)
          i
          (suc (base + i))
          r
  unfolding sources_from numbered Cited
  from-Cited base [] i r h = absurd (cc)
  from-Cited base (x ∷ xs) zero r h =
      let e : suc base ≡ suc (base + 0) = omega arith in
      let cited = λ (y : SearchResult) (n : ℕ).
        Cited (numbered count_tokens max_context_tokens score_threshold model base (x ∷ xs))
          (sources_from base (x ∷ xs)) 0 n y in
      subst (λ n. cited r n) e
        (subst (λ y. cited y (suc base)) (some_inj h)
          (
            refl,
            _,
            refl,
            record {
              number = refl;
              chunk = refl;
              document = refl;
              title = refl;
              preview = refl;
              short = omega (arith, length-take 200 x.content);
            },
          ))
  from-Cited base (x ∷ xs) (suc i) r h =
      let e : suc (suc base + i) ≡ suc (base + suc i) = omega arith in
      subst
        (λ n.
          Cited (numbered count_tokens max_context_tokens score_threshold model (suc base) xs)
            (sources_from (suc base) xs) i n r)
        e (from-Cited (suc base) xs i r h)

  -- The numbers that the context gives to the results used are those of the sources of the answer:
  -- for the i-th result used, the i-th citation block is its block with the number i + 1, and the
  -- i-th source has this number, the result's chunk, document and title, and the first 200
  -- characters of its content.
  pub build_sources-cited :
      (used : List SearchResult) (i : ℕ) (r : SearchResult)
      → get_elem? used i ≡ some r
      → (get_elem? (numbered count_tokens max_context_tokens score_threshold model 0 used) i
          ≡ some (format_block (suc i) r))
        × (source : SourceDto) × (get_elem? (build_sources used) i ≡ some source)
        × IsSourceOf (suc i) r source
  unfolding build_sources Cited
  build_sources-cited used i r h =
      let e : suc (0 + i) ≡ suc i = omega arith in
      subst
        (λ n.
          Cited (numbered count_tokens max_context_tokens score_threshold model 0 used)
            (sources_from 0 used) i n r)
        e (from-Cited 0 used i r h)

module _ (backend : ChatBackend) where
  -- The identifiers of a result are canonical and its score is in range.
  abbrev pub IsReadable : SearchResult → Type 0
  IsReadable r =
      (backend.parse_uuid r.chunk_id.value ≡ some r.chunk_id.value)
      × (backend.parse_uuid r.document_id.value ≡ some r.document_id.value)
      × (r.score ≤ score_one)

  -- The results with the collections that the chat makes up.
  pub renewed : ℕ → List SearchResult → List SearchResult
  renewed i [] = []
  renewed i (r ∷ rs) = record r { collection_id = backend.fresh i } ∷ renewed (suc i) rs

  domain_result-result_dto :
      (i : ℕ) (r : SearchResult)
      → IsReadable r
      → domain_result backend i (result_dto r) ≡ ok (record r { collection_id = backend.fresh i })
  unfolding domain_result result_dto search_result
  domain_result-result_dto i r (chunk, document, score) =
      let parse = backend.parse_uuid in
      let e1 : chunk_id_from_str parse r.chunk_id.value ≡ some r.chunk_id =
        unfold chunk_id_from_str in
        ap (λ (o : Option Text). elim o [ none ↦ none | some u ↦ some (record { value = u }) ])
          chunk in
      let e2 : document_id_from_str parse r.document_id.value ≡ some r.document_id =
        unfold document_id_from_str in
        ap (λ (o : Option Text). elim o [ none ↦ none | some u ↦ some (record { value = u }) ])
          document in
      rw (e1, e2, le→leb r.score score_one score) refl

  -- Round trip of the search results: what the chat reads back from the DTOs of results with
  -- canonical identifiers and scores in range is those results, except that each gets a new
  -- collection.
  pub domain_results-result_dto :
      (i : ℕ) (results : List SearchResult)
      → All IsReadable results
      → domain_results backend i (map result_dto results) ≡ ok (renewed i results)
  unfolding domain_results renewed
  domain_results-result_dto i [] h = refl
  domain_results-result_dto i (r ∷ rs) (h, hs) =
      rw (domain_result-result_dto i r h, domain_results-result_dto (suc i) rs hs) refl
