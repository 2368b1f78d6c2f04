-- ===== src/Queue/Complete.antt =====
-- `PostgresJobQueue`: `heartbeat`, `complete_with_effects` and `requeue_retryable`.
use axit_project.Prelude.{
  ℕ, ◌+◌, ◌*◌, Bool, true, false, ◌&&◌, ◌||◌, not, [], ◌∷◌, ◌++◌, String, Option, none, some, ◌==◌,
  any_by, ℤ, pos, pos_part, ltb_ℤ, if◌then◌else◌, ok, err, require, string_eq, nat_eq, int_eq,
}
use axit_project.Errors.{queue_invariant_error, stale_lease_error, integrity_error, data_error}
use axit_project.Json.{Fields, Chars, canonical_json_bytes, nul_in_fields}
use axit_project.Database.{Exec, pure, lift, transaction, update_where, count_by, ◌>>=◌, ◌>>◌}
use axit_project.Domain.Models.{
  JobState, pending, running, succeeded, failed_retryable, job_state_eq,
}
use axit_project.Queue.{
  Job, Attempt, attempt_succeeded, attempt_failed, JobResult, Tables, ClaimedJob,
}
use axit_project.Queue.Claim.{is_open, valid_at}
use axit_project.Queue.Checks.{require_lease_seconds, check_completion}

-- The WHERE clause that fences a worker: the running row of this generation and token, in time.
abbrev pub held_by : ClaimedJob → ℕ → Job → Bool
held_by claimed now j =
    j.id == claimed.id
    && j.state == running
    && j.lease_generation == claimed.lease_generation
    && elim j.lease_token [ none ↦ false | some token ↦ token == claimed.lease_token ]
    && valid_at now j.lease_until

-- UPDATE jobs SET change WHERE test, which must write one row.
unfoldable pub update_one_job : (Job → Bool) → (Job → Job) → Exec Tables (Unit {0})
update_one_job test change db =
    if count_by test db.jobs == 1
    then (ok tt, record db { jobs = update_where test change db.jobs })
    else (err stale_lease_error, db)

abbrev pub extend : ℕ → ℤ → Job → Job
extend now lease_seconds j = record j {
  heartbeat_at = some now;
  lease_until = some (now + pos_part lease_seconds * 1000000);
  updated_at = now;
}

unfoldable pub heartbeat : ClaimedJob → ℤ → ℕ → Exec Tables (Unit {0})
unfolding update_one_job
heartbeat claimed lease_seconds now = do
  lift (require_lease_seconds lease_seconds)
  transaction (update_one_job (held_by claimed now) (extend now lease_seconds))

abbrev pub finish : JobState → Option String → ℕ → Job → Job
finish target_state error_code now j = record j {
  state = target_state;
  lease_token = none;
  lease_owner = none;
  lease_until = none;
  heartbeat_at = some now;
  error_code = error_code;
  updated_at = now;
}

-- INSERT INTO job_results, under its primary key and UNIQUE (job_id), of a value that `jsonb` takes
unfoldable pub insert_result : JobResult → Exec Tables (Unit {0})
unfolding nul_in_fields
insert_result row db =
    if nul_in_fields row.result_json
    then (err data_error, db)
    else if any_by (λ (r : JobResult). r.id == row.id || r.job_id == row.job_id) db.job_results
    then (err integrity_error, db)
    else (ok tt, record db { job_results = db.job_results ++ row ∷ [] })

-- UPDATE job_attempts …, for the open attempt of the claim; it must write one row.
abbrev pub attempt_of : ClaimedJob → Attempt → Bool
attempt_of claimed a =
    a.job_id == claimed.id
    && a.lease_generation == claimed.lease_generation
    && a.lease_token == claimed.lease_token
    && is_open a

abbrev pub ended : JobState → Option String → ℕ → Attempt → Attempt
ended target_state error_code now a = record a {
  ended_at = some now;
  status = if target_state == succeeded then attempt_succeeded else attempt_failed;
  error_code = error_code;
}

unfoldable pub close_attempt : ClaimedJob → JobState → Option String → ℕ → Exec Tables (Unit {0})
close_attempt claimed target_state error_code now db =
    if count_by (attempt_of claimed) db.job_attempts == 1
    then (
      ok tt,
      record db {
        job_attempts =
            update_where (attempt_of claimed) (ended target_state error_code now) db.job_attempts;
      },
    )
    else (err queue_invariant_error, db)

-- `hashlib.sha256(…).hexdigest()` is a parameter; `effect` is the caller's own writes.
module _ (sha256 : Chars → String) where
  -- The result of a success, and nothing for a failure.
  unfoldable pub store_result : ClaimedJob → JobState → Fields → ℕ → ℕ → Exec Tables (Unit {0})
  unfolding insert_result
  store_result claimed target_state result result_id now =
      if target_state == succeeded
      then (do
        encoded ← lift (canonical_json_bytes result)
        insert_result (record {
          id = result_id;
          job_id = claimed.id;
          result_json = result;
          result_hash = sha256 encoded;
          created_at = now;
        }))
      else pure tt

  -- `started` is CURRENT_TIMESTAMP, the beginning of the transaction.
  unfoldable pub complete_with_effects :
      ClaimedJob
      → JobState
      → Fields
      → Option String
      → Exec Tables (Unit {0})
      → ℕ
      → ℕ
      → ℕ
      → Exec Tables (Unit {0})
  unfolding update_one_job store_result close_attempt
  complete_with_effects claimed target_state result error_code effect result_id started now = do
    lift (check_completion target_state error_code)
    transaction (do
      update_one_job (held_by claimed now) (finish target_state error_code now)
      effect
      store_result claimed target_state result result_id started
      close_attempt claimed target_state error_code started)

  unfoldable pub complete :
      ClaimedJob → JobState → Fields → Option String → ℕ → ℕ → ℕ → Exec Tables (Unit {0})
  unfolding complete_with_effects
  complete claimed target_state result error_code result_id started now =
      complete_with_effects claimed target_state result error_code (pure tt) result_id started now

abbrev pub requeueable : ℕ → ℤ → Job → Bool
requeueable job_id expected_lease_generation j =
    j.id == job_id
    && j.state == failed_retryable
    && pos j.lease_generation == expected_lease_generation
    && elim j.lease_token [ none ↦ true | some _ ↦ false ]

abbrev pub requeued : ℕ → Job → Job
requeued now j = record j { state = pending; error_code = none; updated_at = now }

unfoldable pub requeue_retryable : ℕ → ℤ → ℕ → Exec Tables (Unit {0})
unfolding update_one_job
requeue_retryable job_id expected_lease_generation now = do
  lift (require (not (ltb_ℤ expected_lease_generation (pos 1))) queue_invariant_error)
  transaction (update_one_job (requeueable job_id expected_lease_generation) (requeued now))
