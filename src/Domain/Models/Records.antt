-- ===== src/Domain/Models/Records.antt =====
-- The value objects of domain/models.py. A function `new_…` is the constructor with its
-- `__post_init__`.
use axit_project.Prelude.{
  Bool, true, false, ◌&&◌, not, List, String, Option, none, some, ℤ, pos, ltb_ℤ, ◌==◌, is_blank,
  if◌then◌else◌, Result, ok, require, ◌>>◌, int_eq,
}
use axit_project.Errors.{Error, domain_invariant_error}
use axit_project.Time.{DateTime}
use axit_project.Domain.Models.{
  TalkSessionState, RevisionProcessingState, GenerationKind, GenerationRunState, JobState, running,
  AggregateAction, require_identifier, job_state_eq,
}

pub record RevisionStatus : Type 0 where
  pub revision_id : String
  pub processing_state : RevisionProcessingState

unfoldable pub new_revision_status : String → RevisionProcessingState → Result Error RevisionStatus
unfolding require_identifier
new_revision_status revision_id processing_state = do
  require_identifier revision_id
  ok (record { revision_id = revision_id; processing_state = processing_state })

pub record CloseExclusion : Type 0 where
  pub revision_id : String
  pub reason : String

unfoldable pub new_close_exclusion : String → String → Result Error CloseExclusion
unfolding require_identifier
new_close_exclusion revision_id reason = do
  require_identifier revision_id
  require (not (is_blank reason)) domain_invariant_error
  ok (record { revision_id = revision_id; reason = reason })

pub record CloseEligibility : Type 0 where
  pub eligible : Bool
  pub included_revision_ids : List String
  pub excluded_revision_ids : List String
  pub blocking_revision_ids : List String

pub record GenerationRunView : Type 0 where
  pub kind : GenerationKind
  pub state : GenerationRunState
  pub error_code : Option String

unfoldable pub new_generation_run_view :
    GenerationKind → GenerationRunState → Option String → Result Error GenerationRunView
new_generation_run_view kind state error_code = do
  require (elim error_code [ none ↦ true | some code ↦ not (is_blank code) ]) domain_invariant_error
  ok (record { kind = kind; state = state; error_code = error_code })

pub record AggregateReason : Type 0 where
  pub code : String
  pub kind : Option GenerationKind
  pub retryable : Bool

unfoldable pub new_aggregate_reason :
    String → Option GenerationKind → Bool → Result Error AggregateReason
new_aggregate_reason code kind retryable = do
  require (not (is_blank code)) domain_invariant_error
  ok (record { code = code; kind = kind; retryable = retryable })

pub record GenerationAggregate : Type 0 where
  pub state : TalkSessionState
  pub reasons : List AggregateReason
  pub retry_available : Bool
  pub action : AggregateAction

pub record JobLeaseView : Type 0 where
  pub job_id : String
  pub state : JobState
  pub lease_generation : ℤ
  pub lease_token : Option String
  pub lease_until : Option DateTime

abbrev pub is_none {ℓ} : {A : Type ℓ} → Option A → Bool
is_none none = true
is_none (some _) = false

-- The checks of `JobLeaseView.__post_init__`, in order.
unfoldable pub check_job_lease : JobLeaseView → Result Error (Unit {0})
unfolding require_identifier
check_job_lease job = do
  require_identifier job.job_id
  require (not (ltb_ℤ job.lease_generation (pos 0))) domain_invariant_error
  require (elim job.lease_token [ none ↦ true | some token ↦ not (is_blank token) ])
      domain_invariant_error
  if job.state == running
      then (do
        require (not (job.lease_generation == pos 0)) domain_invariant_error
        require (not (is_none job.lease_token) && not (is_none job.lease_until))
            domain_invariant_error)
      else ok tt

unfoldable pub new_job_lease_view : JobLeaseView → Result Error JobLeaseView
unfolding check_job_lease
new_job_lease_view job = do check_job_lease job; ok job

pub record JobClaimIntent : Type 0 where
  pub job_id : String
  pub expected_state : JobState
  pub expected_lease_generation : ℤ
  pub expected_lease_token : Option String
  pub owner_id : String
  pub lease_generation : ℤ
  pub lease_token : String
  pub lease_until : DateTime
  pub reclaimed_expired_lease : Bool

pub record JobHeartbeatIntent : Type 0 where
  pub job_id : String
  pub lease_generation : ℤ
  pub lease_token : String
  pub lease_until : DateTime

pub record JobCompletionIntent : Type 0 where
  pub job_id : String
  pub lease_generation : ℤ
  pub lease_token : String
  pub target_state : JobState

pub record JobRequeueIntent : Type 0 where
  pub job_id : String
  pub expected_lease_generation : ℤ
