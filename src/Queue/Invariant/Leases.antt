-- ===== src/Queue/Invariant/Leases.antt =====
-- The operations that write one row of `jobs` and no other table: `heartbeat`, `requeue_retryable`.
use axit_project.Prelude.{
  ℕ, ◌≡◌, refl, sym, ap, ◌∙◌, Bool, true, List, ◌==◌, arith, ℤ, String, string_eq, nat_eq, inl, inr,
  Bool-cases, require, not, ltb_ℤ, pos,
}
use axit_project.Errors.{queue_invariant_error}
use axit_project.Database.{count_by, update_where, transaction, lift_keeps}
use axit_project.Database.Rows.{count_by-update_where, All-update_where}
use axit_project.Domain.Models.{failed_retryable, job_state_eq}
use axit_project.Queue.{Job, Attempt, JobResult, Tables, ClaimedJob}
use axit_project.Queue.Complete.{
  heartbeat, requeue_retryable, update_one_job, held_by, extend, requeueable, requeued,
}
use axit_project.Queue.Checks.{require_lease_seconds}
use axit_project.Queue.Invariant.{IsConsistent, IsWellFormed, has_id, has_key}

module _ (t : Job → Bool) (f : Job → Job) (same_id : (j : Job) → (f j).id ≡ j.id)
    (same_key : (j : Job) → (f j).logical_key ≡ j.logical_key) where
  -- A change of rows that keeps identity, and consistency where it is made, keeps the tables.
  pub update_jobs-IsWellFormed :
      (db : Tables)
      → ((j : Job)
          → IsConsistent db.job_attempts db.job_results j
          → t j ≡ true
          → IsConsistent db.job_attempts db.job_results (f j))
      → IsWellFormed db
      → IsWellFormed (record db { jobs = update_where t f db.jobs })
  update_jobs-IsWellFormed db keeps h =
      let rows = λ (id : ℕ).
        count_by-update_where (has_id id) t f db.jobs (λ j. ap (λ i. i == id) (same_id j)) in
      let keys = λ (key : String).
        count_by-update_where (has_key key) t f db.jobs (λ j. ap (λ k. k == key) (same_key j)) in
      record {
        one_row = λ id. rw (rows id) (h.one_row id);
        one_key = λ key. rw (keys key) (h.one_key key);
        attempts_known = λ id e. h.attempts_known id (sym (rows id) ∙ e);
        results_known = λ id e. h.results_known id (sym (rows id) ∙ e);
        consistent = All-update_where _ _ t f db.jobs keeps (λ j c e. c) h.consistent;
      }

  update_one_job-IsWellFormed :
      (db : Tables)
      → ((j : Job)
          → IsConsistent db.job_attempts db.job_results j
          → t j ≡ true
          → IsConsistent db.job_attempts db.job_results (f j))
      → IsWellFormed db
      → IsWellFormed (transaction (update_one_job t f) db).1
  unfolding update_one_job
  update_one_job-IsWellFormed db keeps h = elim (Bool-cases (count_by t db.jobs == 1)) [
    | inl one ↦ rw one (update_jobs-IsWellFormed db keeps h)
    | inr other ↦ rw other h
  ]

extend-IsConsistent :
    (claimed : ClaimedJob) (seconds : ℤ) (now : ℕ) (attempts : List Attempt)
    (results : List JobResult) (j : Job)
    → IsConsistent attempts results j
    → held_by claimed now j ≡ true
    → IsConsistent attempts results (extend now seconds j)
extend-IsConsistent claimed seconds now attempts results j c held = record {
  token_shape = c.token_shape;
  owner_shape = c.owner_shape;
  until_shape = ground (arith, c.until_shape);
  error_shape = c.error_shape;
  one_open = c.one_open;
  one_current = c.one_current;
  none_later = c.none_later;
  one_result = c.one_result;
}

pub requeued-IsConsistent :
    (now : ℕ) (attempts : List Attempt) (results : List JobResult) (j : Job)
    → IsConsistent attempts results j
    → j.state ≡ failed_retryable
    → IsConsistent attempts results (requeued now j)
requeued-IsConsistent now attempts results j c failed = record {
  token_shape = ground (arith, c.token_shape);
  owner_shape = ground (arith, c.owner_shape);
  until_shape = ground (arith, c.until_shape);
  error_shape = refl;
  one_open = ground (arith, c.one_open);
  one_current = ground (arith, c.one_current);
  none_later = c.none_later;
  one_result = ground (arith, c.one_result);
}

requeue-IsConsistent :
    (job_id : ℕ) (expected : ℤ) (now : ℕ) (attempts : List Attempt) (results : List JobResult)
    (j : Job)
    → IsConsistent attempts results j
    → requeueable job_id expected j ≡ true
    → IsConsistent attempts results (requeued now j)
requeue-IsConsistent job_id expected now attempts results j c chosen =
    requeued-IsConsistent now attempts results j c (ground arith)

-- A heartbeat, granted or refused, keeps the tables well-formed.
pub heartbeat-IsWellFormed :
    (claimed : ClaimedJob) (seconds : ℤ) (now : ℕ) (db : Tables)
    → IsWellFormed db
    → IsWellFormed (heartbeat claimed seconds now db).1
unfolding heartbeat
heartbeat-IsWellFormed claimed seconds now db h =
    lift_keeps IsWellFormed (require_lease_seconds seconds) _ db h λ a e.
      update_one_job-IsWellFormed (held_by claimed now) (extend now seconds) (λ j. refl) (λ j. refl)
        db (extend-IsConsistent claimed seconds now db.job_attempts db.job_results) h

-- A requeue, granted or refused, keeps the tables well-formed.
pub requeue_retryable-IsWellFormed :
    (job_id : ℕ) (expected : ℤ) (now : ℕ) (db : Tables)
    → IsWellFormed db
    → IsWellFormed (requeue_retryable job_id expected now db).1
unfolding requeue_retryable
requeue_retryable-IsWellFormed job_id expected now db h =
    lift_keeps IsWellFormed (require (not (ltb_ℤ expected (pos 1))) queue_invariant_error) _ db h
      λ a e.
        update_one_job-IsWellFormed (requeueable job_id expected) (requeued now) (λ j. refl)
          (λ j. refl) db (requeue-IsConsistent job_id expected now db.job_attempts db.job_results) h
