-- ===== src/Queue/Invariant/Enqueue.antt =====
-- The row that `enqueue` inserts, against the invariant.
use axit_project.Prelude.{
  ℕ, ◌≡◌, refl, false, [], ◌∷◌, ◌++◌, Option, none, some, All-append, arith, String, string_eq,
  nat_eq, any_by, Result, ok, err, ◌⊎◌, inl, inr,
}
use axit_project.Errors.{Error}
use axit_project.Json.{Fields, canonical_json_bytes}
use axit_project.Database.{
  transaction, lift_keeps, transaction_preserves, then_lift_keeps, ◌>>=◌, continue,
}
use axit_project.Database.Rows.{count_by_mono, any_by-count_by, unique-insert, absent-insert}
use axit_project.Domain.Models.{job_state_eq}
use axit_project.Queue.{Job, Tables}
use axit_project.Queue.Enqueue.{enqueue, insert_job, row_or_existing, new_job}
use axit_project.Queue.Checks.{require_logical_key, require_kind, durable_job_from_row}
use axit_project.Queue.Invariant.{
  IsConsistent, IsWellFormed, has_id, has_key, open_of, current_of, later_of, for_job,
}

-- Nothing refers to a job that is not there.
pub new_job-IsConsistent :
    (db : Tables) (job_id now : ℕ) (key kind : String) (payload : Fields) (snapshot : Option ℕ)
    → IsWellFormed db
    → any_by (has_id job_id) db.jobs ≡ false
    → IsConsistent db.job_attempts db.job_results (new_job job_id now key kind payload snapshot)
new_job-IsConsistent db job_id now key kind payload snapshot h new =
    let absent = any_by-count_by (has_id job_id) db.jobs new in
    let no_attempt = h.attempts_known job_id absent in
    let row = new_job job_id now key kind payload snapshot in
    record {
      token_shape = refl;
      owner_shape = refl;
      until_shape = refl;
      error_shape = refl;
      one_open = omega (
        arith,
        no_attempt,
        count_by_mono (open_of job_id) (for_job job_id) db.job_attempts (λ a e. ground arith),
      );
      one_current = omega (
        arith,
        no_attempt,
        count_by_mono (current_of row) (for_job job_id) db.job_attempts (λ a e. ground arith),
      );
      none_later = omega (
        arith,
        no_attempt,
        count_by_mono (later_of row) (for_job job_id) db.job_attempts (λ a e. ground arith),
      );
      one_result = h.results_known job_id absent;
    }

pub insert_new-IsWellFormed :
    (db : Tables) (row : Job)
    → IsWellFormed db
    → any_by (has_id row.id) db.jobs ≡ false
    → any_by (has_key row.logical_key) db.jobs ≡ false
    → IsConsistent db.job_attempts db.job_results row
    → IsWellFormed (record db { jobs = db.jobs ++ row ∷ [] })
insert_new-IsWellFormed db row h new_id new_key fits = record {
  one_row = unique-insert (λ (j : Job). j.id) db.jobs row new_id h.one_row;
  one_key = unique-insert (λ (j : Job). j.logical_key) db.jobs row new_key h.one_key;
  attempts_known = λ id e. h.attempts_known id (absent-insert (λ (j : Job). j.id) db.jobs row id e);
  results_known = λ id e. h.results_known id (absent-insert (λ (j : Job). j.id) db.jobs row id e);
  consistent = All-append _ db.jobs (row ∷ []) h.consistent (fits, tt);
}

-- The three ways an INSERT of a job ends.
insert_job_cases :
    (row : Job) (db : Tables)
    → ((insert_job row db).1 ≡ db)
      ⊎ ((any_by (has_id row.id) db.jobs ≡ false)
          × (any_by (has_key row.logical_key) db.jobs ≡ false)
          × ((insert_job row db).1 ≡ record db { jobs = db.jobs ++ row ∷ [] }))
unfolding insert_job
insert_job_cases row db = ground arith

row_or_existing_reads :
    (key : String) (found : Option Job) (db : Tables) → (row_or_existing key found db).1 ≡ db
unfolding row_or_existing
row_or_existing_reads key none db = refl
row_or_existing_reads key (some row) db = refl

insert_or_find_keeps :
    (row : Job) (key : String) (db : Tables) (P : Tables → Type 0)
    → P (insert_job row db).1
    → P ((insert_job row >>= row_or_existing key) db).1
insert_or_find_keeps row key db P p = reads (insert_job row db) p
  where
    reads :
        (r : Result Error (Option Job) × Tables) → P r.1 → P (continue (row_or_existing key) r).1
    reads (ok found, t) q = rw (row_or_existing_reads key found t) q
    reads (err e, t) q = q

-- An enqueue, whatever its outcome, keeps the tables well-formed.
pub enqueue-IsWellFormed :
    (job_id now : ℕ) (key kind : String) (payload : Fields) (snapshot : Option ℕ) (db : Tables)
    → IsWellFormed db
    → IsWellFormed (enqueue job_id now key kind payload snapshot db).1
unfolding enqueue
enqueue-IsWellFormed job_id now key kind payload snapshot db h =
    lift_keeps IsWellFormed (require_logical_key key) _ db h λ _ _.
      lift_keeps IsWellFormed (require_kind kind) _ db h λ _ _.
        lift_keeps IsWellFormed (canonical_json_bytes payload) _ db h λ _ _.
          then_lift_keeps IsWellFormed (transaction (insert_job row >>= row_or_existing key))
            durable_job_from_row db
            (transaction_preserves IsWellFormed (insert_job row >>= row_or_existing key) db h
              (insert_or_find_keeps row key db IsWellFormed (inserted (insert_job_cases row db))))
  where
    row : Job
    row = new_job job_id now key kind payload snapshot

    inserted :
        ((insert_job row db).1 ≡ db)
          ⊎ ((any_by (has_id row.id) db.jobs ≡ false)
              × (any_by (has_key row.logical_key) db.jobs ≡ false)
              × ((insert_job row db).1 ≡ record db { jobs = db.jobs ++ row ∷ [] }))
        → IsWellFormed (insert_job row db).1
    inserted (inl same) = rw same h
    inserted (inr (new_id, new_key, grown)) = rw grown (
        insert_new-IsWellFormed db row h new_id new_key
          (new_job-IsConsistent db job_id now key kind payload snapshot h new_id))
