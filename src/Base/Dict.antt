-- ===== src/Base/Dict.antt =====
-- Python's `dict` with text keys: entries in insertion order, an overwritten key keeps its place.
use ai_backend_api.Base.Text.{Text, text_eq, text_eq_iff}
use ai_backend_api.Base.Tests.{if◌then◌else◌}
use mathlib.Core.Path.{◌≡◌, refl}
use mathlib.Core.Bool.{Bool, true, false}
use mathlib.Core.Option.{Option, none, some}
use mathlib.Core.List.{List, [], ◌∷◌, map}
use native.Mathlib.Omega.{arith}

abbrev pub Dict : Type 0 → Type 0
Dict V = List (Text × V)

abbrev pub is_some : {A : Type 0} → Option A → Bool
is_some none = false
is_some (some a) = true

module _ {V : Type 0} where
  -- d.get(k)
  unfoldable pub get : Dict V → Text → Option V
  get [] k = none
  get ((j, v) ∷ d) k = if text_eq j k then some v else get d k

  -- d[k] = v
  unfoldable pub put : Dict V → Text → V → Dict V
  put [] k v = (k, v) ∷ []
  put ((j, w) ∷ d) k v = if text_eq j k then (j, v) ∷ d else (j, w) ∷ put d k v

  -- del d[k], d.pop(k, None); keys occur once, so dropping every entry of `k` is the same.
  unfoldable pub remove : Dict V → Text → Dict V
  remove [] k = []
  remove ((j, w) ∷ d) k = let rest = remove d k in if text_eq j k then rest else (j, w) ∷ rest

  -- d.values()
  unfoldable pub values : Dict V → List V
  values d = map (λ e. e.1) d

  -- k in d
  abbrev pub has : Dict V → Text → Bool
  has d k = is_some (get d k)

  pub get-put :
      (d : Dict V) (k : Text) (v : V) (i : Text)
      → get (put d k v) i ≡ (if text_eq k i then some v else get d i)
  unfolding get put
  get-put [] k v i = refl
  get-put ((j, w) ∷ d) k v i =
      ground (arith, text_eq_iff j k, text_eq_iff j i, text_eq_iff k i, get-put d k v i)

  pub get-remove :
      (d : Dict V) (k i : Text) → get (remove d k) i ≡ (if text_eq k i then none else get d i)
  unfolding get remove
  get-remove [] k i = ground arith
  get-remove ((j, w) ∷ d) k i =
      ground (arith, text_eq_iff j k, text_eq_iff j i, text_eq_iff k i, get-remove d k i)

pub ruleset dict_laws = (get-put, get-remove)
