-- ===== src/Base/Filter.antt =====
-- Lemmas on filtered lists.
use ai_backend_api.Base.Tests.{Bool-cases}
use ai_backend_api.Base.Lists.{length, filter_by, All}
use Prim.Native.Nat.{◌≤◌}
use mathlib.Core.Path.{◌≡◌, refl, ap}
use mathlib.Core.Logic.{inl, inr}
use mathlib.Core.Bool.{Bool, true, false}
use mathlib.Core.List.{List, [], ◌∷◌, ◌++◌}
use native.Mathlib.Omega.{arith}

module _ {A : Type 0} where
  pub filter-filter :
      (p q : A → Bool)
      → ((x : A) → q x ≡ true → p x ≡ true)
      → (xs : List A) → filter_by q (filter_by p xs) ≡ filter_by q xs
  unfolding filter_by
  filter-filter p q h [] = refl
  filter-filter p q h (x ∷ xs) = elim (Bool-cases (q x)) [
    | inl live ↦ rw (live, h x live) (rw live (ap (λ (l : List A). x ∷ l) (filter-filter p q h xs)))
    | inr dead ↦ elim (Bool-cases (p x)) [
      | inl kept ↦ rw (dead, kept) (rw dead (filter-filter p q h xs))
      | inr gone ↦ rw (dead, gone) (filter-filter p q h xs)
    ]
  ]

  pub length-filter_mono :
      (p q : A → Bool)
      → ((x : A) → q x ≡ true → p x ≡ true)
      → (xs : List A) → length (filter_by q xs) ≤ length (filter_by p xs)
  unfolding filter_by
  length-filter_mono p q h [] = omega arith
  length-filter_mono p q h (x ∷ xs) =
      let rest = length-filter_mono p q h xs in
      elim (Bool-cases (q x)) [
        | inl live ↦ rw (live, h x live) (omega (arith, rest))
        | inr dead ↦ elim (Bool-cases (p x)) [
          | inl kept ↦ rw (dead, kept) (omega (arith, rest))
          | inr gone ↦ rw (dead, gone) (omega (arith, rest))
        ]
      ]

  pub filter_by-append :
      (p : A → Bool) (xs ys : List A) → filter_by p (xs ++ ys) ≡ filter_by p xs ++ filter_by p ys
  unfolding filter_by
  filter_by-append p [] ys = refl
  filter_by-append p (x ∷ xs) ys = elim (Bool-cases (p x)) [
    | inl kept ↦ rw (kept, filter_by-append p xs ys) refl
    | inr dead ↦ rw (dead, filter_by-append p xs ys) refl
  ]

  -- Nothing is left where no element has the property.
  pub filter_by-nil : (p : A → Bool) (xs : List A) → All (λ x. p x ≡ false) xs → filter_by p xs ≡ []
  unfolding filter_by
  filter_by-nil p [] h = refl
  filter_by-nil p (x ∷ xs) (h, hs) = rw (h, filter_by-nil p xs hs) refl

  pub filter_by-ext :
      (p q : A → Bool) → ((x : A) → p x ≡ q x) → (xs : List A) → filter_by p xs ≡ filter_by q xs
  unfolding filter_by
  filter_by-ext p q h [] = refl
  filter_by-ext p q h (x ∷ xs) = rw (h x, filter_by-ext p q h xs) refl
