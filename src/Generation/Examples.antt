-- ===== src/Generation/Examples.antt =====
-- Concrete inputs for the theorems on the generation worker.
use axit_project.Prelude.{
  ℕ, ◌≡◌, refl, Bool, true, false, not, ◌&&◌, List, [], ◌∷◌, String, Option, none, some, ◌==◌, ltb,
  ok, arith, ℤ, pos, string_eq,
}
use axit_project.Json.{Chars, end}
use axit_project.Database.{Exec, pure, count_by}
use axit_project.Domain.Models.{failed_retryable, job_state_eq}
use axit_project.Queue.{Tables, ClaimedJob}
use axit_project.Queue.Enqueue.{enqueue}
use axit_project.Queue.Invariant.Enqueue.{enqueue-IsWellFormed}
use axit_project.Queue.Claim.{ClaimTimes}
use axit_project.Queue.Invariant.{IsWellFormed}
use axit_project.Queue.Invariant.Effects.{nothing_InsertsOnly}
use axit_project.Generation.{GenerationExecution, check_execution}
use axit_project.Generation.Worker.{
  Executed, executed, FinishTimes, complete_claim, finish_claim, run_generation_once,
}
use axit_project.Generation.Cap.{IsValid}
use axit_project.Generation.Rounds.{finish_claim-bounded, run_generation_once-IsWellFormed}

abbrev no_uuid : String → Option ℕ
no_uuid s = none

abbrev no_text : ℕ → String
no_text n = ""

abbrev no_digest : Chars → String
no_digest s = ""

abbrev timed_out : GenerationExecution ℕ
timed_out = record {
  snapshot_id = 9;
  kind = "research";
  pipeline_version = "p1";
  target_state = failed_retryable;
  result = end;
  error_code = some "timeout";
  retryable = true;
  completion = none;
}

abbrev runs_out : ClaimedJob → Executed ℕ
runs_out claimed = executed timed_out

abbrev no_effect : GenerationExecution ℕ → Exec Tables (Unit {0})
no_effect x = pure tt

abbrev alone : Tables → Tables
alone s = s

abbrev third_claim : ClaimedJob
third_claim = record {
  id = 24;
  logical_key = "k";
  kind = "research";
  payload = end;
  owner = "w";
  lease_generation = 3;
  lease_token = 5;
  attempt_id = 6;
}

abbrev finish_times : FinishTimes
finish_times = record { result_id = 1; started = 10; updated = 11; requeued = 12 }

abbrev idle_queue : Tables
idle_queue = record { jobs = []; job_attempts = []; job_results = []; snapshots = [] }

timed_out-IsValid : IsValid timed_out
unfolding check_execution axit_project.Prelude.is_blank
timed_out-IsValid = refl

finish_claim-bounded_example :
    (y : GenerationExecution ℕ) × IsValid y
    × ((y.target_state == failed_retryable) ≡ (
        timed_out.target_state == failed_retryable
        && not (third_claim.kind == "research" && not (ltb third_claim.lease_generation 3))))
    × ((third_claim.kind == "research" && ltb third_claim.lease_generation 3) ≡ false
        → (finish_claim no_uuid no_text no_digest runs_out no_effect alone alone finish_times
            (some third_claim)
            idle_queue).1
          ≡ (complete_claim no_uuid no_text no_digest runs_out no_effect alone alone finish_times
              third_claim
              (some y)
              idle_queue).1)
finish_claim-bounded_example =
    finish_claim-bounded no_uuid no_text no_digest runs_out no_effect alone alone finish_times
      third_claim timed_out idle_queue refl timed_out-IsValid

idle_queue-IsWellFormed : IsWellFormed idle_queue
unfolding count_by
idle_queue-IsWellFormed = record {
  one_row = λ id. omega arith;
  one_key = λ key. omega arith;
  attempts_known = λ id e. refl;
  results_known = λ id e. refl;
  consistent = tt;
}

-- A research job that waits.
abbrev waiting : Tables
waiting = (enqueue 24 100 "k" "research" end none idle_queue).1

waiting-IsWellFormed : IsWellFormed waiting
waiting-IsWellFormed =
    enqueue-IsWellFormed 24 100 "k" "research" end none idle_queue idle_queue-IsWellFormed

abbrev claim_times : ClaimTimes
claim_times = record { started = 1; selected = 2; ended = 3; granted = 4 }

abbrev unlocked : ℕ → Bool
unlocked id = false

run_generation_once-IsWellFormed_example :
    IsWellFormed
      (run_generation_once no_uuid no_text no_digest runs_out no_effect alone alone claim_times
        unlocked 5 6 finish_times "w"
        (pos 300)
        ("research" ∷ [])
        waiting).1
run_generation_once-IsWellFormed_example =
    run_generation_once-IsWellFormed no_uuid no_text no_digest runs_out no_effect alone alone
      (λ s h. h) (λ s h. h) (λ x. nothing_InsertsOnly) claim_times unlocked 5 6 finish_times "w"
      (pos 300) ("research" ∷ []) waiting waiting-IsWellFormed
