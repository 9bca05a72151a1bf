-- ===== src/Base/Result.antt =====
-- Calls that return or raise.
use mathlib.Core.Path.{◌≡◌, refl, sym, ap, ◌∙◌}
use mathlib.Core.Logic.{◌⊎◌, inl, inr}

pub data Result (E A : Type 0) : Type 0 where
  ok : A → Result E A
  err : E → Result E A

-- The rest of the calls runs on the value that the first one returns; what it raises ends them all.
infixl 5 ◌>>=◌
abbrev pub ◌>>=◌ : {E A B : Type 0} → Result E A → (A → Result E B) → Result E B
err raised >>= rest = err raised
ok value >>= rest = rest value

-- To split on the outcome of a call and keep the equation.
pub Result-cases :
    {E A : Type 0} (r : Result E A) → ((a : A) × (r ≡ ok a)) ⊎ ((e : E) × (r ≡ err e))
Result-cases (ok a) = inl (a, refl)
Result-cases (err e) = inr (e, refl)

-- A chain that returned `end` has a first call that returned.
pub >>=-eq-ok :
    {E Mid End : Type 0} (first : Result E Mid) (rest : Mid → Result E End) {end : End}
    → (first >>= rest) ≡ ok end
    → (mid : Mid) × (first ≡ ok mid) × (rest mid ≡ ok end)
>>=-eq-ok (err raised) rest returned = cc
>>=-eq-ok (ok mid) rest returned = (mid, refl, returned)

pub ok_inj : {E A : Type 0} {r : Result E A} {x y : A} → r ≡ ok x → r ≡ ok y → x ≡ y
ok_inj {E} {A} {r} {x} e f = ap (λ (q : Result E A). elim q [ ok a ↦ a | err _ ↦ x ]) (sym e ∙ f)

pub err_inj : {E A : Type 0} {r : Result E A} {x y : E} → r ≡ err x → r ≡ err y → x ≡ y
err_inj {E} {A} {r} {x} e f = ap (λ (q : Result E A). elim q [ ok _ ↦ x | err a ↦ a ]) (sym e ∙ f)
