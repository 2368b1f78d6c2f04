-- ===== src/Queue/Examples.antt =====
-- Concrete inputs for the theorems on the durable queue.
use axit_project.Prelude.{
  Result, ok, err, false, ◌≤◌, ◌≡◌, refl, arith, [], ◌∷◌, String, none, some, pos, string_eq,
  nat_eq,
}
use axit_project.Errors.{Error, stale_lease_error}
use axit_project.Queue.Checks.{check_completion, require_lease_seconds}
use axit_project.Queue.Claim.{ClaimTimes, claim_next}
use axit_project.Queue.Invariant.Claim.{claim_next-IsWellFormed}
use axit_project.Queue.Traces.{initially, claimed, extended, Reaches-IsWellFormed}
use axit_project.Queue.Atomic.{superseded_is_stale}
use axit_project.Queue.Granting.{complete-IsGranted}
use axit_project.Queue.Completed.{IsCompleted, complete-IsCompleted}
use axit_project.Json.{dumps, nul_in_fields, canonical_json_bytes, object, end, Chars}
use axit_project.Database.{count_by, pure, update_where}
use axit_project.Domain.Models.{running, succeeded, job_state_eq}
use axit_project.Queue.{Job, Attempt, Tables, ClaimedJob, attempt_running}
use axit_project.Queue.Enqueue.{enqueue}
use axit_project.Queue.Complete.{
  heartbeat, held_by, complete, complete_with_effects, requeue_retryable,
}
use axit_project.Queue.Invariant.{IsConsistent, IsWellFormed}
use axit_project.Queue.Invariant.Enqueue.{enqueue-IsWellFormed}
use axit_project.Queue.Invariant.Leases.{heartbeat-IsWellFormed, requeue_retryable-IsWellFormed}
use axit_project.Queue.Invariant.Effects.{nothing_InsertsOnly, complete_with_effects-IsWellFormed}

-- One running job, in its first generation, and its open attempt.
abbrev running_job : Job
running_job = record {
  id = 7;
  logical_key = "extract:1";
  kind = "extraction";
  snapshot_id = none;
  payload_json = object end;
  state = running;
  attempts = 1;
  lease_generation = 1;
  lease_token = some 40;
  lease_owner = some "worker";
  lease_until = some 500;
  heartbeat_at = some 100;
  error_code = none;
  created_at = 10;
  updated_at = 100;
}

abbrev open_attempt : Attempt
open_attempt = record {
  id = 3;
  job_id = 7;
  lease_generation = 1;
  lease_token = 40;
  owner = "worker";
  started_at = 100;
  ended_at = none;
  status = attempt_running;
  error_code = none;
}

abbrev tables : Tables
tables = record {
  jobs = running_job ∷ [];
  job_attempts = open_attempt ∷ [];
  job_results = [];
  snapshots = [];
}

abbrev held : ClaimedJob
held = record {
  id = 7;
  logical_key = "extract:1";
  kind = "extraction";
  payload = end;
  owner = "worker";
  lease_generation = 1;
  lease_token = 40;
  attempt_id = 3;
}

running_job-IsConsistent : IsConsistent (open_attempt ∷ []) [] running_job
unfolding count_by
running_job-IsConsistent = record {
  token_shape = refl;
  owner_shape = refl;
  until_shape = refl;
  error_shape = refl;
  one_open = refl;
  one_current = refl;
  none_later = refl;
  one_result = refl;
}

tables-IsWellFormed : IsWellFormed tables
unfolding count_by
tables-IsWellFormed = record {
  one_row = λ id. ground arith;
  one_key = λ key. ground arith;
  attempts_known = λ id e. ground arith;
  results_known = λ id e. refl;
  consistent = (running_job-IsConsistent, tt);
}

heartbeat-IsWellFormed_example : IsWellFormed (heartbeat held (pos 30) 200 tables).1
heartbeat-IsWellFormed_example = heartbeat-IsWellFormed held (pos 30) 200 tables tables-IsWellFormed

requeue_retryable-IsWellFormed_example : IsWellFormed (requeue_retryable 7 (pos 1) 200 tables).1
requeue_retryable-IsWellFormed_example =
    requeue_retryable-IsWellFormed 7 (pos 1) 200 tables tables-IsWellFormed

enqueue-IsWellFormed_example :
    IsWellFormed (enqueue 8 200 "extract:2" "extraction" end none tables).1
enqueue-IsWellFormed_example =
    enqueue-IsWellFormed 8 200 "extract:2" "extraction" end none tables tables-IsWellFormed

abbrev constant_hash : Chars → String
constant_hash _ = "0"

complete_with_effects-IsWellFormed_example :
    IsWellFormed
      (complete_with_effects constant_hash held succeeded end none (pure tt) 60 150 200 tables).1
complete_with_effects-IsWellFormed_example =
    complete_with_effects-IsWellFormed constant_hash held succeeded end none (pure tt) 60 150 200
      tables nothing_InsertsOnly tables-IsWellFormed

-- The lease ended at 500; this claim is at 600.
abbrev late : ClaimTimes
late = record { started = 600; selected = 600; ended = 601; granted = 602 }

claim_next-IsWellFormed_example :
    IsWellFormed (claim_next late (λ _. false) 41 4 "other" (pos 30) none tables).1
claim_next-IsWellFormed_example =
    claim_next-IsWellFormed late (λ _. false) 41 4 "other" (pos 30) none tables tables-IsWellFormed

Reaches-IsWellFormed_example :
    IsWellFormed
      (claim_next late
        (λ _. false)
        41
        4
        "other"
        (pos 30)
        none
        (heartbeat held (pos 30) 200 tables).1).1
Reaches-IsWellFormed_example =
    Reaches-IsWellFormed constant_hash tables
      (claim_next late (λ _. false) 41 4 "other" (pos 30) none
        (heartbeat held (pos 30) 200 tables).1).1
      tables-IsWellFormed
      (claimed late (λ _. false) 41 4 "other" (pos 30) none (extended held (pos 30) 200 initially))

-- The job after another worker's claim.
abbrev taken_over : Tables
taken_over = record tables {
  jobs = record running_job { lease_generation = 2; lease_token = some 41 } ∷ [];
}

abbrev late_completion : Result Error (Unit {0}) × Tables
late_completion =
    complete_with_effects constant_hash held succeeded end none (pure tt) 60 150 200 taken_over

late_completion_refused : late_completion ≡ (err stale_lease_error, taken_over)
unfolding complete_with_effects check_completion count_by
late_completion_refused = refl

-- The job of this worker, completed.
abbrev completed_tables : Tables
completed_tables = (complete constant_hash held succeeded end none 60 150 200 tables).1

completes :
    complete constant_hash held succeeded end none 60 150 200 tables ≡ (ok tt, completed_tables)
unfolding complete complete_with_effects check_completion count_by update_where canonical_json_bytes
    dumps
completes = refl

complete-IsCompleted_example :
    (complete constant_hash held succeeded end none 60 150 200 tables ≡ (ok tt, completed_tables)
      → IsCompleted constant_hash held succeeded end none 60 150 200 tables completed_tables)
    × ((e : Error)
        → complete constant_hash held succeeded end none 60 150 200 tables
          ≡ (err e, completed_tables)
        → completed_tables ≡ tables)
complete-IsCompleted_example =
    complete-IsCompleted constant_hash held succeeded end none 60 150 200 tables completed_tables

accepted_success : check_completion succeeded none ≡ ok tt
unfolding check_completion
accepted_success = refl

accepted_seconds : require_lease_seconds (pos 30) ≡ ok tt
unfolding require_lease_seconds
accepted_seconds = refl

superseded_is_stale_example :
    (complete_with_effects constant_hash held succeeded end none (pure tt) 60 150 200 taken_over
      ≡ (err stale_lease_error, taken_over))
    × (heartbeat held (pos 30) 200 taken_over ≡ (err stale_lease_error, taken_over))
superseded_is_stale_example =
    superseded_is_stale constant_hash held succeeded end none (pure tt) 60 150 200 (pos 30)
      taken_over (refl, tt) accepted_success accepted_seconds

held_once : 1 ≤ count_by (held_by held 200) (running_job ∷ [])
unfolding count_by
held_once = omega arith

empty_encoded : canonical_json_bytes end ≡ ok (123 ∷ 125 ∷ [])
unfolding canonical_json_bytes dumps
empty_encoded = refl

complete-IsGranted_example :
    (complete constant_hash held succeeded end none 60 150 200 tables).0 ≡ ok tt
unfolding nul_in_fields
complete-IsGranted_example =
    complete-IsGranted constant_hash held end 60 150 200 (123 ∷ 125 ∷ []) tables tables-IsWellFormed
      held_once empty_encoded refl refl
