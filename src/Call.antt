-- ===== src/Call.antt =====
-- How Python binds the arguments of a call to the parameters of a function: what the call sites of
-- the program that name a parameter the callee lacks, or leave one out, run into.
use ai_backend_api.Base.{
  ℕ, Bool, false, ◌||◌, Option, none, some, List, [], ◌∷◌, ◌++◌, take, if◌then◌else◌,
}
use ai_backend_api.Base.Text.{Text, codes, text_eq}
use ai_backend_api.Base.Result.{Result, ok, err}
use ai_backend_api.Errors.{Exc}

-- A function's name, its parameters in their order, and those of them without a default.
pub record Signature : Type 0 where
  pub function : Text
  pub parameters : List Text
  pub required : List Text

abbrev pub member : Text → List Text → Bool
member k [] = false
member k (j ∷ js) = text_eq j k || member k js

-- The first of the names that is not among the others.
abbrev pub first_missing : List Text → List Text → Option Text
first_missing [] js = none
first_missing (k ∷ ks) js = let rest = first_missing ks js in if member k js then rest else some k

abbrev unexpected : Text → Text → Exc
unexpected f k =
    Exc.type_error (f ++ (codes "() got an unexpected keyword argument '" ++ (k ++ codes "'")))

abbrev missing : Text → Text → Exc
missing f k =
    Exc.type_error (f ++ (codes "() missing 1 required positional argument: '" ++ (k ++ codes "'")))

-- A call with a number of positional arguments and with keywords.
abbrev pub check_call : Signature → ℕ → List Text → Result Exc (Unit {0})
check_call f positional keywords = elim (first_missing keywords f.parameters) [
  | some k ↦ err (unexpected f.function k)
  | none ↦ elim (first_missing f.required (take positional f.parameters ++ keywords)) [
    | some k ↦ err (missing f.function k)
    | none ↦ ok tt
  ]
]
