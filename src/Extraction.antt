-- ===== src/Extraction.antt =====
-- apps/api/app/orchestrator_runner.py: what the extraction runner passes around, and how it reads a
-- JSON payload.
pub mod Job
pub mod Runner
pub mod Completions
pub mod Fence
mod Examples
use axit_project.Prelude.{
  ℕ, ◌+◌, Bool, true, false, ◌&&◌, ◌||◌, List, [], ◌∷◌, String, code, Option, none, some, leb,
  nat_eqb, text_length, contains, all_by, ◌==◌, if◌then◌else◌, Result, ok, err, string_eq,
}
use axit_project.Errors.{Error}
use axit_project.Json.{Value, text, array, object, Items, nil, cons, Fields, end, field}
use axit_project.Domain.Models.{JobState}
use axit_project.Sandbox.{SandboxFailureCode, sandbox_launch_failed, parser_timeout, ParserIdentity}

-- What the steps of a job raise: an `ExtractionSourceError` or a `_RunnerFailure` with its code and
-- whether it may be retried, or any other exception.
pub data Raised : Type 0 where
  typed : String → Bool → Raised
  untyped : Raised

pub record ExtractionSource : Type 0 where
  pub revision_id : ℕ
  pub input_bytes : List ℕ
  pub original_filename : String
  pub media_type : String
  pub parser : ParserIdentity

pub record ExtractionRunOutcome : Type 0 where
  pub job_id : Option ℕ
  pub claimed : Bool
  pub completed : Bool
  pub stale_completion : Bool
  pub target_state : Option JobState
  pub error_code : Option String

pub record ExtractionJobPayload : Type 0 where
  pub revision_id : ℕ
  pub media_type : String
  pub parser : ParserIdentity

pub record Completion : Type 0 where
  pub target_state : JobState
  pub result : Fields
  pub error_code : Option String

-- `payload.get(name)`
abbrev pub lookup : String → Fields → Option Value
lookup name end = none
lookup name (field key value rest) = if key == name then some value else lookup name rest

abbrev pub keys : Fields → List String
keys end = []
keys (field key value rest) = key ∷ keys rest

-- `set(payload) == set(names)`
abbrev pub has_keys : List String → Fields → Bool
has_keys names payload =
    all_by (contains names) (keys payload) && all_by (contains (keys payload)) names

abbrev pub as_text : Option Value → Option String
as_text (some (text s)) = some s
as_text _ = none

abbrev pub as_mapping : Option Value → Option Fields
as_mapping (some (object fields)) = some fields
as_mapping _ = none

abbrev pub as_list : Option Value → Option Items
as_list (some (array items)) = some items
as_list _ = none

abbrev pub items_length : Items → ℕ
items_length nil = 0
items_length (cons _ rest) = 1 + items_length rest

-- `_RETRYABLE_SANDBOX_FAILURES`
abbrev pub is_retryable_code : SandboxFailureCode → Bool
is_retryable_code sandbox_launch_failed = true
is_retryable_code parser_timeout = true
is_retryable_code _ = false

abbrev pub parsers_equal : ParserIdentity → ParserIdentity → Bool
parsers_equal p q = p.name == q.name && p.version == q.version

abbrev pub is_hex : ℕ → Bool
is_hex c = (leb 48 c && leb c 57) || (leb 97 c && leb c 102)

all_hex : String → Bool
all_hex String.[] = true
all_hex (String.◌∷◌ c s) = is_hex (code c) && all_hex s

-- `_SHA256.fullmatch`
unfoldable pub is_sha256 : String → Bool
unfolding all_hex
is_sha256 s = nat_eqb (text_length s) 64 && all_hex s

-- `raise` where the value is needed, with a check that it is there.
abbrev pub given {ℓ} : {A : Type ℓ} → Option A → Raised → Result Raised A
given none raised = err raised
given (some a) raised = ok a

abbrev pub invalid_payload : Raised
invalid_payload = typed "INVALID_JOB_PAYLOAD" false

abbrev pub invalid_outcome : Raised
invalid_outcome = typed "INVALID_SANDBOX_OUTCOME" false

-- An exception of a library or of a value object, which no handler names.
abbrev pub otherwise {ℓ} : {A : Type ℓ} → Raised → Result Error A → Result Raised A
otherwise raised (ok a) = ok a
otherwise raised (err _) = err raised
