-- ===== src/Generation.antt =====
-- `GenerationExecution` of apps/api/app/generation_runner.py: what a run of a summary or research job
-- gives the worker. Its completion, the normalised document, is of a type that is a parameter.
pub mod Worker
pub mod Cap
pub mod Rounds
mod Examples
use axit_project.Prelude.{
  ℕ, Bool, true, false, ◌&&◌, ◌||◌, not, List, [], ◌∷◌, String, code, Option, none, some, ◌==◌,
  contains, is_blank, if◌then◌else◌, Result, ok, err, require, ◌>>=◌, ◌>>◌, string_eq,
}
use axit_project.Prelude.{is_space}
use axit_project.Errors.{Error, value_error}
use axit_project.Json.{Value, Fields, end, field}
use axit_project.Domain.Models.{
  JobState, succeeded, failed_retryable, failed_terminal, job_state_eq,
}

pub record GenerationExecution (Completion : Type 0) : Type 0 where
  pub snapshot_id : ℕ
  pub kind : String
  pub pipeline_version : String
  pub target_state : JobState
  pub result : Fields
  pub error_code : Option String
  pub retryable : Bool
  pub completion : Option Completion

abbrev pub generation_kinds : List String
generation_kinds = "summary" ∷ "research" ∷ []

abbrev pub is_given {ℓ} : {A : Type ℓ} → Option A → Bool
is_given none = false
is_given (some _) = true

abbrev pub ends_in_space : String → Bool
ends_in_space String.[] = false
ends_in_space (String.◌∷◌ c String.[]) = is_space (code c)
ends_in_space (String.◌∷◌ c (String.◌∷◌ d rest)) = ends_in_space (String.◌∷◌ d rest)

-- `text and text == text.strip()`
unfoldable pub is_stripped : String → Bool
unfolding is_space
is_stripped String.[] = false
is_stripped (String.◌∷◌ c rest) = not (is_space (code c)) && not (ends_in_space (String.◌∷◌ c rest))

abbrev pub typed_error : Option String → Bool
typed_error none = false
typed_error (some code) = is_stripped code

-- `GenerationExecution.__post_init__`
unfoldable pub check_execution : {C : Type 0} → GenerationExecution C → Result Error (Unit {0})
unfolding is_stripped
check_execution x = do
  require (contains generation_kinds x.kind) value_error
  require (not (is_blank x.pipeline_version)) value_error
  if x.target_state == succeeded
      then require (not (is_given x.error_code || not (is_given x.completion) || x.retryable))
          value_error
      else if x.target_state == failed_retryable || x.target_state == failed_terminal
      then require (not (is_given x.completion || not (typed_error x.error_code))) value_error
      else err value_error

-- The constructor, which `dataclasses.replace` calls too.
unfoldable pub new_execution :
    {C : Type 0} → GenerationExecution C → Result Error (GenerationExecution C)
unfolding check_execution
new_execution x = check_execution x >>= λ _. ok x

-- `{**fields, name: value}`
unfoldable pub with_field : String → Value → Fields → Fields
with_field name value end = field name value end
with_field name value (field key old rest) =
    let later = with_field name value rest in
    if key == name then field key value rest else field key old later
