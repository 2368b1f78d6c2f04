-- ===== src/Extraction/Runner.antt =====
-- apps/api/app/orchestrator_runner.py: `FencedExtractionRunner.run_once`.
use axit_project.Prelude.{
  ℕ, Bool, true, false, [], ◌∷◌, String, Option, none, some, ℤ, Result, ok, err,
}
use axit_project.Errors.{Error, stale_lease_error, value_error}
use axit_project.Json.{Chars}
use axit_project.Database.{Exec, pure, lift, modify, ◌>>=◌, ◌>>◌}
use axit_project.Queue.{Tables, ClaimedJob}
use axit_project.Queue.Claim.{ClaimTimes, claim_next}
use axit_project.Queue.Complete.{complete}
use axit_project.Extraction.{Raised, ExtractionRunOutcome, Completion}

-- `except StaleLeaseError`: whether the body returned.
abbrev pub unless_stale : Result Error (Unit {0}) × Tables → Result Error Bool × Tables
unless_stale (ok _, t) = (ok true, t)
unless_stale (err stale_lease_error, t) = (ok false, t)
unless_stale (err e, t) = (err e, t)

-- An exception that escapes the handlers is a ValueError.
abbrev pub escaping : Result Raised Completion → Result Error Completion
escaping (ok completion) = ok completion
escaping (err _) = err value_error

abbrev pub idle_outcome : ExtractionRunOutcome
idle_outcome = record {
  job_id = none;
  claimed = false;
  completed = false;
  stale_completion = false;
  target_state = none;
  error_code = none;
}

abbrev pub outcome_of : ClaimedJob → Completion → Bool → ExtractionRunOutcome
outcome_of claimed completion completed = record {
  job_id = some claimed.id;
  claimed = true;
  completed = completed;
  stale_completion = elim completed [ true ↦ false | false ↦ true ];
  target_state = some completion.target_state;
  error_code = completion.error_code;
}

-- `execute` is `_execute_claimed_job` with its collaborators, and `interlude` what others write to
-- the tables while the job is executed. `digest` is the queue's hash.
module _ (digest : Chars → String) (execute : ClaimedJob → Result Raised Completion)
    (interlude : Tables → Tables) where
  unfoldable pub finish_job : ℕ → ℕ → ℕ → Option ClaimedJob → Exec Tables ExtractionRunOutcome
  finish_job result_id started now none = pure idle_outcome
  finish_job result_id started now (some claimed) = do
    modify interlude
    completion ← lift (escaping (execute claimed))
    completed ← (λ db. unless_stale (
        complete digest claimed completion.target_state completion.result completion.error_code
          result_id started now db))
    pure (outcome_of claimed completion completed)

  unfoldable pub run_once :
      ClaimTimes → (ℕ → Bool) → ℕ → ℕ → ℕ → ℕ → ℕ → String → ℤ → Exec Tables ExtractionRunOutcome
  unfolding finish_job
  run_once times locked lease_token attempt_id result_id started now owner lease_seconds = do
    claimed ←
        claim_next times locked lease_token attempt_id owner lease_seconds
          (some ("extraction" ∷ []))
    finish_job result_id started now claimed
