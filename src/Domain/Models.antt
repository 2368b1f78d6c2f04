-- ===== src/Domain/Models.antt =====
-- apps/api/app/domain/models.py: the states, and the value objects with their validation.
pub mod Records
use axit_project.Prelude.{
  ℕ, ◌≡◌, Bool, true, false, String, arith, ◌==◌, Eq, nat_eqb, enum_beq_iff, is_blank, not, Result,
  require,
}
use axit_project.Errors.{Error, domain_invariant_error}

pub data TalkSessionState : Type 0 where
  draft open_session closed processing ready needs_attention : TalkSessionState

pub data RevisionProcessingState : Type 0 where
  uploaded revision_queued extracting revision_ready failed : RevisionProcessingState

pub data GenerationKind : Type 0 where
  summary research : GenerationKind

pub data GenerationRunState : Type 0 where
  queued run_running run_succeeded run_failed_retryable run_failed_terminal : GenerationRunState

pub data JobState : Type 0 where
  pending running succeeded failed_retryable failed_terminal : JobState

pub data AggregateAction : Type 0 where
  no_action retry operator_or_replan : AggregateAction

abbrev pub session_index : TalkSessionState → ℕ
session_index draft = 0
session_index open_session = 1
session_index closed = 2
session_index processing = 3
session_index ready = 4
session_index needs_attention = 5

pub session_index_injective : (a b : TalkSessionState) → session_index a ≡ session_index b → a ≡ b
session_index_injective a b h = ground arith

instance abbrev pub session_state_eq : Eq TalkSessionState
session_state_eq = record {
  beq = λ a b. nat_eqb (session_index a) (session_index b);
  beq_iff = enum_beq_iff session_index session_index_injective;
}

abbrev pub job_index : JobState → ℕ
job_index pending = 0
job_index running = 1
job_index succeeded = 2
job_index failed_retryable = 3
job_index failed_terminal = 4

pub job_index_injective : (a b : JobState) → job_index a ≡ job_index b → a ≡ b
job_index_injective a b h = ground arith

instance abbrev pub job_state_eq : Eq JobState
job_state_eq = record {
  beq = λ a b. nat_eqb (job_index a) (job_index b);
  beq_iff = enum_beq_iff job_index job_index_injective;
}

-- The properties of `GenerationRunState`.
abbrev pub is_active : GenerationRunState → Bool
is_active queued = true
is_active run_running = true
is_active _ = false

abbrev pub is_failure : GenerationRunState → Bool
is_failure run_failed_retryable = true
is_failure run_failed_terminal = true
is_failure _ = false

abbrev pub is_retryable_failure : GenerationRunState → Bool
is_retryable_failure run_failed_retryable = true
is_retryable_failure _ = false

abbrev pub is_succeeded : GenerationRunState → Bool
is_succeeded run_succeeded = true
is_succeeded _ = false

-- The texts of the enums' members.
abbrev pub kind_value : GenerationKind → String
kind_value summary = "summary"
kind_value research = "research"

abbrev pub run_state_value : GenerationRunState → String
run_state_value queued = "queued"
run_state_value run_running = "running"
run_state_value run_succeeded = "succeeded"
run_state_value run_failed_retryable = "failed_retryable"
run_state_value run_failed_terminal = "failed_terminal"

unfoldable pub require_identifier : String → Result Error (Unit {0})
require_identifier value = require (not (is_blank value)) domain_invariant_error
