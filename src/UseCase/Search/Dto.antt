-- ===== src/UseCase/Search/Dto.antt =====
-- The filters of a search.
use ai_backend_api.Base.{ℕ, ap, ◌∙◌, some, [], ◌∷◌, ◌≡◌, refl, if◌then◌else◌}
use ai_backend_api.Base.Text.{Text, codes, text_eq}
use ai_backend_api.Base.Dict.{Dict, get, put, get-put}
use ai_backend_api.Entity.Values.{Value, str}
use ai_backend_api.UseCase.Search.{SearchRequest, search_filters, given_filters, with_collection}

added : Dict Value → Text → Dict Value
added d c = put d (codes "collection_id") (str c)

with_collection_lem :
    (c : ℕ) (cs : Text) (d : Dict Value)
    → with_collection (some (c ∷ cs)) (given_filters d) ≡ some (added d (c ∷ cs))
unfolding added
with_collection_lem c cs [] = refl
with_collection_lem c cs (e ∷ es) = refl

-- If the request names a collection (its text is not empty), the search has filters, in which
-- `collection_id` is that collection, whatever the request's own filters say of it, and every
-- other field is filtered as the request says.
pub search_filters-collection :
    (request : SearchRequest) (c : ℕ) (cs : Text)
    → request.collection_id ≡ some (c ∷ cs)
    → (filters : Dict Value) × (search_filters request ≡ some filters)
      × ((k : Text)
          → get filters k ≡ (
              if text_eq (codes "collection_id") k
              then some (str (c ∷ cs))
              else get request.filters k))
unfolding search_filters
search_filters-collection request c cs h = (
  added request.filters (c ∷ cs),
  ap (λ o. with_collection o (given_filters request.filters)) h
      ∙ with_collection_lem c cs request.filters,
  λ k. unfold added in get-put request.filters (codes "collection_id") (str (c ∷ cs)) k,
)
