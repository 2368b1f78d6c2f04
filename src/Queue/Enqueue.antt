-- ===== src/Queue/Enqueue.antt =====
-- `PostgresJobQueue.enqueue` and `fetch_job`. A statement reads the clock once, and that reading is
-- an argument, as are the UUIDs that `uuid4` draws.
use axit_project.Prelude.{
  ℕ, Bool, true, List, [], ◌∷◌, ◌++◌, String, Option, none, some, ◌==◌, contains, any_by,
  if◌then◌else◌, Result, ok, err, string_eq, nat_eq, int_eq,
}
use axit_project.Errors.{Error, queue_invariant_error, integrity_error}
use axit_project.Json.{object, Fields, canonical_json_bytes}
use axit_project.Database.{Exec, pure, lift, gets, transaction, count_by, ◌>>=◌, ◌>>◌}
use axit_project.Domain.Models.{pending, job_state_eq}
use axit_project.Queue.{Job, JobResult, Tables, DurableJob}
use axit_project.Queue.Checks.{require_logical_key, require_kind, durable_job_from_row}

abbrev pub find_job : (Job → Bool) → List Job → Option Job
find_job test [] = none
find_job test (j ∷ rest) = if test j then some j else find_job test rest

abbrev pub required_row {ℓ} : {A : Type ℓ} → Option A → Result Error A
required_row none = err queue_invariant_error
required_row (some row) = ok row

-- INSERT INTO jobs … ON CONFLICT (logical_key) DO NOTHING RETURNING …
unfoldable pub insert_job : Job → Exec Tables (Option Job)
insert_job row db =
    if any_by (λ (j : Job). j.logical_key == row.logical_key) db.jobs
    then (ok none, db)
    else if any_by (λ (j : Job). j.id == row.id) db.jobs
    then (err integrity_error, db)
    else if elim row.snapshot_id [ none ↦ true | some s ↦ contains db.snapshots s ]
    then (ok (some row), record db { jobs = db.jobs ++ row ∷ [] })
    else (err integrity_error, db)

abbrev pub new_job : ℕ → ℕ → String → String → Fields → Option ℕ → Job
new_job job_id now logical_key kind payload snapshot_id = record {
  id = job_id;
  logical_key = logical_key;
  kind = kind;
  snapshot_id = snapshot_id;
  payload_json = object payload;
  state = pending;
  attempts = 0;
  lease_generation = 0;
  lease_token = none;
  lease_owner = none;
  lease_until = none;
  heartbeat_at = none;
  error_code = none;
  created_at = now;
  updated_at = now;
}

unfoldable pub row_or_existing : String → Option Job → Exec Tables Job
row_or_existing logical_key (some row) = pure row
row_or_existing logical_key none = do
  jobs ← gets (λ (db : Tables). db.jobs)
  lift (required_row (find_job (λ (j : Job). j.logical_key == logical_key) jobs))

unfoldable pub enqueue : ℕ → ℕ → String → String → Fields → Option ℕ → Exec Tables DurableJob
unfolding insert_job row_or_existing
enqueue job_id now logical_key kind payload snapshot_id = do
  lift (require_logical_key logical_key)
  lift (require_kind kind)
  encoded ← lift (canonical_json_bytes payload)
  row ← transaction (
      insert_job (new_job job_id now logical_key kind payload snapshot_id)
      >>= row_or_existing logical_key)
  lift (durable_job_from_row row)

unfoldable pub fetch_job : ℕ → Exec Tables DurableJob
fetch_job job_id = do
  jobs ← gets (λ (db : Tables). db.jobs)
  row ← lift (required_row (find_job (λ (j : Job). j.id == job_id) jobs))
  lift (durable_job_from_row row)

-- SELECT count(*) FROM job_results WHERE job_id = …
unfoldable pub result_count : ℕ → Exec Tables ℕ
result_count job_id =
    gets (λ (db : Tables). count_by (λ (r : JobResult). r.job_id == job_id) db.job_results)
