-- ===== src/Generation/Worker.antt =====
-- apps/api/app/generation_worker.py: one round of `FencedGenerationWorker`.
use axit_project.Prelude.{
  ℕ, Bool, true, false, ◌&&◌, ◌||◌, not, List, String, Option, none, some, ◌==◌, contains, all_by,
  is_blank, ltb, ℤ, pos, if◌then◌else◌, Result, ok, err, require, string_eq, ◌>>=◌ as and_then,
}
use axit_project.Errors.{Error, value_error}
use axit_project.Json.{Value, text, end, field, Chars}
use axit_project.Database.{Exec, pure, lift, modify, ◌>>=◌, ◌>>◌}
use axit_project.Domain.Models.{JobState, failed_retryable, failed_terminal, job_state_eq}
use axit_project.Domain.Close.{is_empty}
use axit_project.Queue.{Tables, ClaimedJob}
use axit_project.Queue.Claim.{ClaimTimes, claim_next}
use axit_project.Queue.Complete.{complete, complete_with_effects, requeue_retryable}
use axit_project.Extraction.{lookup}
use axit_project.Extraction.Runner.{unless_stale}
use axit_project.Generation.{GenerationExecution, generation_kinds, new_execution, with_field}

pub record GenerationWorkerOutcome : Type 0 where
  pub job_id : Option ℕ
  pub claimed : Bool
  pub completed : Bool
  pub stale_completion : Bool
  pub target_state : Option JobState
  pub error_code : Option String

abbrev pub failure_code : String
failure_code = "generation_runner_failure"

-- `_cap_research_retries`
unfoldable pub cap_research_retries :
    {C : Type 0}
    → Option (GenerationExecution C)
    → ClaimedJob
    → Result Error (Option (GenerationExecution C))
unfolding with_field
cap_research_retries none claimed = ok none
cap_research_retries (some x) claimed =
    if not (x.target_state == failed_retryable)
      || not (claimed.kind == "research")
      || ltb claimed.lease_generation 3
    then ok (some x)
    else and_then
        (new_execution (record x {
          target_state = failed_terminal;
          retryable = false;
          result = with_field "status" (text "failed_terminal") x.result;
        }))
        (λ y. ok (some y))

abbrev pub text_of : Option Value → Option String
text_of (some (text s)) = some s
text_of _ = none

-- What `GenerationRunner.execute` did.
pub data Executed (C : Type 0) : Type 0 where
  executed : GenerationExecution C → Executed C
  runner_error : Executed C
  other_error : Error → Executed C

abbrev pub outcome_for :
    {C : Type 0} → ClaimedJob → Option (GenerationExecution C) → Bool → GenerationWorkerOutcome
outcome_for claimed none completed = record {
  job_id = some claimed.id;
  claimed = true;
  completed = completed;
  stale_completion = not completed;
  target_state = none;
  error_code = some failure_code;
}
outcome_for claimed (some x) completed = record {
  job_id = some claimed.id;
  claimed = true;
  completed = completed;
  stale_completion = not completed;
  target_state = some x.target_state;
  error_code = x.error_code;
}

abbrev pub nothing_claimed : GenerationWorkerOutcome
nothing_claimed = record {
  job_id = none;
  claimed = false;
  completed = false;
  stale_completion = false;
  target_state = none;
  error_code = none;
}

-- The text of a UUID and its reading are parameters.
module _ (parse_uuid : String → Option ℕ) (uuid_text : ℕ → String) where
  abbrev pub terminal_failure : {C : Type 0} → ℕ → String → String → GenerationExecution C
  terminal_failure snapshot_id kind pipeline_version = record {
    snapshot_id = snapshot_id;
    kind = kind;
    pipeline_version = pipeline_version;
    target_state = failed_terminal;
    result = field "snapshot_id" (text (uuid_text snapshot_id)) (
        field "kind" (text kind)
          (field "status" (text "failed_terminal") (field "error_code" (text failure_code) end)));
    error_code = some failure_code;
    retryable = false;
    completion = none;
  }

  -- `_failure_for_claim`
  unfoldable pub failure_for_claim :
      {C : Type 0} → ClaimedJob → Result Error (Option (GenerationExecution C))
  failure_for_claim claimed = elim (text_of (lookup "snapshot_id" claimed.payload)) [
    | none ↦ ok none
    | some raw_snapshot_id ↦ elim (text_of (lookup "kind" claimed.payload)) [
      | none ↦ ok none
      | some raw_kind ↦ elim (text_of (lookup "pipeline_version" claimed.payload)) [
        | none ↦ ok none
        | some raw_pipeline ↦
            if not (contains generation_kinds raw_kind)
              || not (raw_kind == claimed.kind)
              || is_blank raw_pipeline
            then ok none
            else elim (parse_uuid raw_snapshot_id) [
              | none ↦ ok none
              | some snapshot_id ↦
                  and_then (new_execution (terminal_failure snapshot_id raw_kind raw_pipeline))
                    (λ x. ok (some x))
            ]
      ]
    ]
  ]

  -- `_execute_safely`
  unfoldable pub execute_safely :
      {C : Type 0} → Executed C → ClaimedJob → Result Error (Option (GenerationExecution C))
  unfolding failure_for_claim
  execute_safely (executed x) claimed = ok (some x)
  execute_safely runner_error claimed = failure_for_claim claimed
  execute_safely (other_error e) claimed = err e

-- The draws and clock readings after the claim.
pub record FinishTimes : Type 0 where
  pub result_id : ℕ
  pub started : ℕ
  pub updated : ℕ
  pub requeued : ℕ

-- `digest` is the queue's hash, `execute` the runner with its provider, and `effect` what the
-- repository writes for an execution. `interlude` and `meanwhile` are what others write to the
-- tables while the job is executed and between the completion and the requeue.
module _ {C : Type 0} (parse_uuid : String → Option ℕ) (uuid_text : ℕ → String)
    (digest : Chars → String) (execute : ClaimedJob → Executed C)
    (effect : GenerationExecution C → Exec Tables (Unit {0}))
    (interlude meanwhile : Tables → Tables) where
  -- `_complete`
  unfoldable pub complete_claim :
      FinishTimes → ClaimedJob → Option (GenerationExecution C) → Exec Tables (Unit {0})
  complete_claim times claimed none =
      complete digest claimed failed_terminal
        (field "outcome" (text "failed") (field "error_code" (text failure_code) end))
        (some failure_code) times.result_id times.started times.updated
  complete_claim times claimed (some x) =
      complete_with_effects digest claimed x.target_state x.result x.error_code (effect x)
        times.result_id times.started times.updated

  -- `_retry_research`
  unfoldable pub retry_research : FinishTimes → ClaimedJob → Tables → Result Error Bool × Tables
  retry_research times claimed db =
      if claimed.kind == "research"
      then unless_stale (
          requeue_retryable claimed.id (pos claimed.lease_generation) times.requeued (meanwhile db))
      else (ok true, db)

  abbrev pub is_retryable : Option (GenerationExecution C) → Bool
  is_retryable none = false
  is_retryable (some x) = x.target_state == failed_retryable

  -- What follows the attempt to complete.
  unfoldable pub after_completion :
      FinishTimes
      → ClaimedJob
      → Option (GenerationExecution C)
      → Bool
      → Exec Tables GenerationWorkerOutcome
  unfolding retry_research
  after_completion times claimed execution false = pure (outcome_for claimed execution false)
  after_completion times claimed execution true = do
    if is_retryable execution then retry_research times claimed else pure true
    pure (outcome_for claimed execution true)

  unfoldable pub finish_claim :
      FinishTimes → Option ClaimedJob → Exec Tables GenerationWorkerOutcome
  unfolding complete_claim after_completion
  finish_claim times none = pure nothing_claimed
  finish_claim times (some claimed) = do
    modify interlude
    execution ← lift (execute_safely parse_uuid uuid_text (execute claimed) claimed)
    capped ← lift (cap_research_retries execution claimed)
    completed ← (λ db. unless_stale (complete_claim times claimed capped db))
    after_completion times claimed capped completed

  -- `run_once`
  unfoldable pub run_generation_once :
      ClaimTimes
      → (ℕ → Bool)
      → ℕ
      → ℕ
      → FinishTimes
      → String
      → ℤ
      → List String
      → Exec Tables GenerationWorkerOutcome
  unfolding finish_claim
  run_generation_once times locked lease_token attempt_id finish owner lease_seconds kinds = do
    lift (require (not (is_empty kinds) && all_by (contains generation_kinds) kinds) value_error)
    claimed ← claim_next times locked lease_token attempt_id owner lease_seconds (some kinds)
    finish_claim finish claimed
