-- ===== src/Queue/Invariant/Effects.antt =====
-- The whole transaction of `complete_with_effects`, whose effect may also insert new jobs.
use mathlib.Core.List.{append-nil}
use mathlib.Core.Path.{subst}
use axit_project.Prelude.{
  ap, ℕ, ◌≤◌, ◌≡◌, nat_eqb_iff, beq_sym, refl, sym, Bool, true, false, ◌&&◌, List, [], ◌∷◌, ◌++◌,
  Option, ◌==◌, arith, String, string_eq, nat_eq, any_by, ok, inl, inr, Bool-cases, Result-cases,
  ◌||◌,
}
use axit_project.Json.{Fields, Chars, canonical_json_bytes}
use axit_project.Database.{
  pure, Exec, count_by, update_where, lift_keeps, transaction_keeps, returned, guarded, ◌>>=◌,
}
use axit_project.Errors.{stale_lease_error, queue_invariant_error}
use axit_project.Domain.Models.{JobState, succeeded, job_state_eq}
use axit_project.Domain.Leases.{is_completion_state}
use axit_project.Queue.{Job, JobResult, Tables, ClaimedJob}
use axit_project.Queue.Checks.{check_completion}
use axit_project.Queue.Enqueue.{new_job}
use axit_project.Queue.Complete.{
  held_by, finish, attempt_of, ended, update_one_job, insert_result, store_result, close_attempt,
  complete_with_effects,
}
use axit_project.Queue.Invariant.{
  IsConsistent, IsWellFormed, has_id, has_key, result_of, is_some, is_failed, one_if,
}
use axit_project.Queue.Invariant.Enqueue.{new_job-IsConsistent, insert_new-IsWellFormed}
use axit_project.Queue.Invariant.Complete.{completed-IsWellFormed}

-- Insertions of new pending jobs, one after another.
pub data Inserts (jobs : List Job) : List Job → Type 0 where
  no_more : Inserts jobs jobs
  insert :
      {later : List Job} (row : Job) (job_id now : ℕ) (key kind : String) (payload : Fields)
      (snapshot : Option ℕ)
      → Inserts jobs later
      → row ≡ new_job job_id now key kind payload snapshot
      → any_by (has_id row.id) later ≡ false
      → any_by (has_key row.logical_key) later ≡ false
      → Inserts jobs (later ++ row ∷ [])

-- An effect that writes nothing to the queue's tables but new pending jobs.
pub record InsertsOnly (effect : Exec Tables (Unit {0})) : Type 0 where
  pub at :
      (db t : Tables)
      → effect db ≡ (ok tt, t)
      → Inserts db.jobs t.jobs
        × (t.job_attempts ≡ db.job_attempts)
        × (t.job_results ≡ db.job_results)

abbrev with_jobs : Tables → List Job → Tables
with_jobs db jobs = record db { jobs = jobs }

Inserts-IsWellFormed :
    (db : Tables) {jobs later : List Job}
    → Inserts jobs later
    → IsWellFormed (with_jobs db jobs)
    → IsWellFormed (with_jobs db later)
Inserts-IsWellFormed db no_more h = h
Inserts-IsWellFormed db
      (insert {later} row job_id now key kind payload snapshot before e new_id new_key) h =
    let well = Inserts-IsWellFormed db before h in
    insert_new-IsWellFormed (with_jobs db later) row well new_id new_key (
      subst (IsConsistent db.job_attempts db.job_results) (sym e) (
        new_job-IsConsistent (with_jobs db later) job_id now key kind payload snapshot well
          (subst (λ (r : Job). any_by (has_id r.id) later ≡ false) e new_id)))

checked :
    (target : JobState) (code : Option String)
    → check_completion target code ≡ ok tt
    → (is_completion_state target ≡ true) × (is_some code ≡ is_failed target)
unfolding check_completion
checked target code h = (ground arith, ground arith)

-- Well-formed tables with the same rows.
same_rows :
    (s t : Tables)
    → s.jobs ≡ t.jobs
    → s.job_attempts ≡ t.job_attempts
    → s.job_results ≡ t.job_results
    → IsWellFormed s
    → IsWellFormed t
same_rows s t e1 e2 e3 h = record {
  one_row = subst (λ jobs. (id : ℕ) → count_by (has_id id) jobs ≤ 1) e1 h.one_row;
  one_key = subst (λ jobs. (key : String) → count_by (has_key key) jobs ≤ 1) e1 h.one_key;
  attempts_known = λ id e. rw (sym e2) (h.attempts_known id (rw e1 e));
  results_known = λ id e. rw (sym e3) (h.results_known id (rw e1 e));
  consistent = rw (sym e1) (rw (sym e2) (rw (sym e3) h.consistent));
}

pub update_one_job_ok :
    (test : Job → Bool) (change : Job → Job) (db t : Tables)
    → update_one_job test change db ≡ (ok tt, t)
    → (count_by test db.jobs ≡ 1) × (t ≡ with_jobs db (update_where test change db.jobs))
unfolding update_one_job
update_one_job_ok test change db t h =
    let (one, e) = guarded (count_by test db.jobs == 1) stale_lease_error db _ t h in
    ((nat_eqb_iff _ _).0 one, e)

pub close_attempt_ok :
    (claimed : ClaimedJob) (target : JobState) (code : Option String) (now : ℕ) (db t : Tables)
    → close_attempt claimed target code now db ≡ (ok tt, t)
    → (count_by (attempt_of claimed) db.job_attempts ≡ 1)
      × (t ≡ record db {
        job_attempts = update_where (attempt_of claimed) (ended target code now) db.job_attempts;
      })
unfolding close_attempt
close_attempt_ok claimed target code now db t h =
    let (one, e) =
      guarded (count_by (attempt_of claimed) db.job_attempts == 1) queue_invariant_error db _ t h in
    ((nat_eqb_iff _ _).0 one, e)

module _ (sha256 : Chars → String) (claimed : ClaimedJob) (target : JobState) (result : Fields)
    (result_id now : ℕ) (db t : Tables) where
  abbrev Stored : Type 0
  Stored =
      (more : List JobResult) × (t ≡ record db { job_results = db.job_results ++ more })
      × ((id : ℕ) → count_by (result_of id) more ≡ one_if (id == claimed.id && target == succeeded))

  abbrev stored_row : Chars → JobResult
  stored_row encoded = record {
    id = result_id;
    job_id = claimed.id;
    result_json = result;
    result_hash = sha256 encoded;
    created_at = now;
  }

  insert_result_ok :
      (row : JobResult)
      → row.job_id ≡ claimed.id
      → (target == succeeded) ≡ true
      → insert_result row db ≡ (ok tt, t)
      → Stored
  unfolding insert_result count_by
  insert_result_ok row same success h =
      elim (Bool-cases
        (any_by (λ (r : JobResult). r.id == row.id || r.job_id == row.job_id) db.job_results)) [
          | inl clash ↦ absurd (ground (arith, clash))
          | inr free ↦ (
            row ∷ [],
            ground (arith, free),
            λ id. ground (arith, same, success, beq_sym id claimed.id),
          )
        ]

  store_result_ok : store_result sha256 claimed target result result_id now db ≡ (ok tt, t) → Stored
  unfolding store_result count_by
  store_result_ok h = elim (Bool-cases (target == succeeded)) [
    | inl success ↦ elim (Result-cases (canonical_json_bytes result)) [
      | inl (encoded, e) ↦ insert_result_ok (stored_row encoded) refl success (ground (arith, e))
      | inr (x, e) ↦ absurd (ground (arith, e))
    ]
    | inr failure ↦ ([], ground (arith, append-nil db.job_results), λ id. ground arith)
  ]

module _ (sha256 : Chars → String) (claimed : ClaimedJob) (target : JobState) (result : Fields)
    (code : Option String) (effect : Exec Tables (Unit {0})) (result_id started now : ℕ)
    (only : InsertsOnly effect) where
  -- The steps of the transaction.
  abbrev first_step : Exec Tables (Unit {0})
  first_step = update_one_job (held_by claimed now) (finish target code now)

  abbrev third_step : Exec Tables (Unit {0})
  third_step = store_result sha256 claimed target result result_id started

  abbrev last_step : Exec Tables (Unit {0})
  last_step = close_attempt claimed target code started

  abbrev last_steps : Unit {0} → Exec Tables (Unit {0})
  last_steps _ = third_step >>= λ _. last_step

  abbrev steps : Exec Tables (Unit {0})
  steps = first_step >>= λ _. effect >>= last_steps

  steps-IsWellFormed :
      (db t : Tables)
      → check_completion target code ≡ ok tt
      → steps db ≡ (ok tt, t)
      → IsWellFormed db
      → IsWellFormed t
  steps-IsWellFormed db t accepted ran h =
      let (_, s1, updated, rest1) =
        returned first_step (λ _. effect >>= last_steps) db {t = t} ran in
      let (_, s2, wrote, rest2) = returned effect last_steps s1 {t = t} rest1 in
      let (_, s3, kept, closed) = returned third_step (λ _. last_step) s2 {t = t} rest2 in
      let (one, e1) =
        update_one_job_ok (held_by claimed now) (finish target code now) db s1 updated in
      let (inserts, same_attempts, same_results) = only.at s1 s2 wrote in
      let (more, e3, stored) =
        store_result_ok sha256 claimed target result result_id started s2 s3 kept in
      let (one_attempt, e4) = close_attempt_ok claimed target code started s3 t closed in
      let (final, coded) = checked target code accepted in
      let attempts : s3.job_attempts ≡ db.job_attempts = cc in
      let one' : count_by (attempt_of claimed) db.job_attempts ≡ 1 =
        subst (λ l. count_by (attempt_of claimed) l ≡ 1) attempts one_attempt in
      let finished =
        completed-IsWellFormed claimed target code now started final coded db.job_attempts
          db.job_results more one' stored db.jobs db.snapshots h one in
      let after : Tables = record {
        jobs = update_where (held_by claimed now) (finish target code now) db.jobs;
        job_attempts =
            update_where (attempt_of claimed) (ended target code started) db.job_attempts;
        job_results = db.job_results ++ more;
        snapshots = db.snapshots;
      } in
      let wide =
        Inserts-IsWellFormed after (subst (λ (s : Tables). Inserts s.jobs s2.jobs) e1 inserts)
          finished in
      same_rows (with_jobs after s2.jobs) t (cc) (cc) (cc) wide

-- A completion, whatever its outcome, keeps the tables well-formed when the caller's effect writes
-- nothing to them but new pending jobs.
pub complete_with_effects-IsWellFormed :
    (sha256 : Chars → String) (claimed : ClaimedJob) (target : JobState) (result : Fields)
    (code : Option String) (effect : Exec Tables (Unit {0})) (result_id started now : ℕ)
    (db : Tables)
    → InsertsOnly effect
    → IsWellFormed db
    → IsWellFormed
        (complete_with_effects sha256 claimed target result code effect result_id started now db).1
unfolding complete_with_effects
complete_with_effects-IsWellFormed sha256 claimed target result code effect result_id started now db
      only h =
    lift_keeps IsWellFormed (check_completion target code) _ db h λ _ accepted.
      transaction_keeps IsWellFormed
        (steps sha256 claimed target result code effect result_id started now only) db h
        λ _ t ran.
          steps-IsWellFormed sha256 claimed target result code effect result_id started now only db
            t accepted ran h

-- No effect at all.
pub nothing_InsertsOnly : InsertsOnly (pure tt)
nothing_InsertsOnly = record {
  at = λ db t e.
      subst
        (λ (u : Tables).
          Inserts db.jobs u.jobs
          × (u.job_attempts ≡ db.job_attempts)
          × (u.job_results ≡ db.job_results))
        (ap (λ r. r.1) e) (no_more, refl, refl);
}
