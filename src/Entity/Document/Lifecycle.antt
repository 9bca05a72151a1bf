-- ===== src/Entity/Document/Lifecycle.antt =====
-- What the transitions of a document establish and leave alone.
use ai_backend_api.Base.{ℕ, ◌≡◌, ◌↔◌, ◌≢◌, none, arith}
use ai_backend_api.Base.Text.{Text}
use ai_backend_api.Entity.Document.{
  DocumentStatus, Document, mark_processing, mark_completed, mark_failed,
}

-- The transitions that the methods make.
pub data Step (d d' : Document) : Type 0 where
  process : (now : ℕ) → d' ≡ mark_processing now d → Step d d'
  finish : (now chunks tokens : ℕ) → d' ≡ mark_completed now chunks tokens d → Step d d'
  break : (now : ℕ) (error : Text) → d' ≡ mark_failed now error d → Step d d'

pub data Reach (d : Document) : Document → Type 0 where
  here : Reach d d
  next : {a b : Document} → Reach d a → Step a b → Reach d b

-- An error message is there exactly in status FAILED.
abbrev pub IsConsistent : Document → Type 0
IsConsistent d = (d.error_message ≢ none) ↔ (d.status ≡ DocumentStatus.failed)

Step-IsConsistent : (a b : Document) → Step a b → IsConsistent b
unfolding mark_processing mark_completed mark_failed
Step-IsConsistent a b (process now e) = (λ h. ground arith, λ h. ground arith)
Step-IsConsistent a b (finish now c t e) = (λ h. ground arith, λ h. ground arith)
Step-IsConsistent a b (break now err e) = (λ h. ground arith, λ h. ground arith)

-- Whatever the methods do to a consistent document, it has an error message exactly while its
-- status is FAILED.
pub Reach-IsConsistent : {a b : Document} → IsConsistent a → Reach a b → IsConsistent b
Reach-IsConsistent h here = h
Reach-IsConsistent h (next r s) = Step-IsConsistent _ _ s
