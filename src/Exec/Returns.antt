-- ===== src/Exec/Returns.antt =====
-- Reasoning about methods that return: a precondition, and what holds of the result and the state.
use ai_backend_api.Base.{◌≡◌, refl, subst}
use ai_backend_api.Base.Result.{Result, ok, err, ok_inj}
use ai_backend_api.Errors.{Exc}
use ai_backend_api.Exec.{Exec, pure, lift, modify, continue, ◌>>=◌}

-- If `m` starts where `P` holds and returns a value, `Q` holds of the value and the state.
pub record Returns {S A : Type 0} (P : S → Type 0) (m : Exec S A) (Q : A → S → Type 0)
    : Type 0 where
  pub at : (s : S) → P s → (a : A) → (m s).0 ≡ ok a → Q a (m s).1

module _ {S A B : Type 0} {Q : A → S → Type 0} {R : B → S → Type 0} where
  continue-Returns :
      (f : A → Exec S B)
      → ((a : A) → Returns (Q a) (f a) R)
      → (r : Result Exc A) (s : S) → ((a : A) → r ≡ ok a → Q a s)
      → (b : B) → (continue r f s).0 ≡ ok b
      → R b (continue r f s).1
  continue-Returns f h (ok a) s q b e = (h a).at s (q a refl) b e
  continue-Returns f h (err x) s q b e = absurd (cc)

  pub bind-Returns :
      {P : S → Type 0} {m : Exec S A} {f : A → Exec S B}
      → Returns P m Q
      → ((a : A) → Returns (Q a) (f a) R)
      → Returns P (m >>= f) R
  unfolding ◌>>=◌
  bind-Returns {P} {m} {f} hm hf = record {
    at = λ s p b e. continue-Returns f hf (m s).0 (m s).1 (λ a r. hm.at s p a r) b e;
  }

module _ {S A : Type 0} {P : S → Type 0} where
  pub pure-Returns : {Q : A → S → Type 0} (a : A) → ((s : S) → P s → Q a s) → Returns P (pure a) Q
  pure-Returns {Q} a h = record { at = λ s p b e. subst (λ x. Q x s) (ok_inj refl e) (h s p) }

  pub lift-Returns : (r : Result Exc A) → Returns P (lift r) (λ a s. P s × (r ≡ ok a))
  lift-Returns r = record { at = λ s p a e. (p, e) }

module _ {S : Type 0} {P Q : S → Type 0} where
  pub modify-Returns : (f : S → S) → ((s : S) → P s → Q (f s)) → Returns P (modify f) (λ _ s. Q s)
  modify-Returns f h = record { at = λ s p a e. h s p }
