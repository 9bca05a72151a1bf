-- ===== src/Exec.antt =====
-- Python methods over a store. An exception does not undo what the method has done to the store, so
-- both outcomes carry the store as it is then.
pub mod Returns
use ai_backend_api.Base.{◌≡◌, sym, subst, inl, inr, true, false, Bool-cases, if◌then◌else◌}
use ai_backend_api.Base.Result.{Result, ok, err, Result-cases}
use ai_backend_api.Errors.{Exc, is_exception}

abbrev pub Exec : Type 0 → Type 0 → Type 0
Exec S A = S → Result Exc A × S

abbrev pub pure : {S A : Type 0} → A → Exec S A
pure a s = (ok a, s)

abbrev pub raise : {S A : Type 0} → Exc → Exec S A
raise e s = (err e, s)

-- A call that changes no state.
abbrev pub lift : {S A : Type 0} → Result Exc A → Exec S A
lift r s = (r, s)

abbrev pub modify : {S : Type 0} → (S → S) → Exec S (Unit {0})
modify f s = (ok tt, f s)

abbrev pub continue : {S A B : Type 0} → Result Exc A → (A → Exec S B) → Exec S B
continue (err raised) rest s = (err raised, s)
continue (ok value) rest s = rest value s

infixl 5 ◌>>=◌ ◌>>◌
-- The rest runs in the state that the first call leaves.
unfoldable pub ◌>>=◌ : {S A B : Type 0} → Exec S A → (A → Exec S B) → Exec S B
◌>>=◌ first rest s = continue (first s).0 rest (first s).1

abbrev pub ◌>>◌ : {S A B : Type 0} → Exec S A → Exec S B → Exec S B
m >> n = m >>= λ _. n

abbrev pub recovered : {S A : Type 0} → Result Exc A → (Exc → Exec S A) → Exec S A
recovered (ok a) h s = (ok a, s)
recovered (err e) h s = if is_exception e then h e s else (err e, s)

-- `try: m except Exception as exc: h(exc)`; a `CancelledError` goes on.
unfoldable pub handle : {S A : Type 0} → Exec S A → (Exc → Exec S A) → Exec S A
handle m h s = recovered (m s).0 h (m s).1

-- What holds of a handled call holds when the call returns, of the handler when it raises an
-- `Exception`, and of the call itself when it raises anything else.
pub handle_ind :
    {S A : Type 0} (Q : Result Exc A × S → Type 0) (m : Exec S A) (h : Exc → Exec S A) (s : S)
    → ((a : A) → (m s).0 ≡ ok a → Q (ok a, (m s).1))
    → ((e : Exc) → is_exception e ≡ true → (m s).0 ≡ err e → Q (h e (m s).1))
    → ((e : Exc) → is_exception e ≡ false → (m s).0 ≡ err e → Q (err e, (m s).1))
    → Q (handle m h s)
unfolding handle
handle_ind {S} {A} Q m h s on_ok on_err on_other = elim (Result-cases (m s).0) [
  | inl (a, e) ↦ subst (λ r. Q (recovered r h (m s).1)) (sym e) (on_ok a e)
  | inr (x, e) ↦
      subst (λ r. Q (recovered r h (m s).1)) (sym e)
        (elim (Bool-cases (is_exception x)) [
          | inl caught ↦ rw caught (on_err x caught e)
          | inr passed ↦ rw passed (on_other x passed e)
        ])
]
