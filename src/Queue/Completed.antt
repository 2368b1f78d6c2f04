-- ===== src/Queue/Completed.antt =====
-- What a completion writes: all of it, or nothing.
use mathlib.Core.Path.{subst}
use axit_project.Prelude.{
  ℕ, ◌≡◌, ◌≢◌, sym, ap, ◌∙◌, inl, inr, ◌||◌, [], ◌∷◌, ◌++◌, String, Option, none, some, ◌==◌, arith,
  any_by, Bool-cases, Result-cases, ok, err, if◌then◌else◌, string_eq, nat_eq,
}
use axit_project.Errors.{Error}
use axit_project.Json.{Fields, Chars, canonical_json_bytes}
use axit_project.Database.{
  Exec, pure, count_by, update_where, lift_returned, transaction_returned, returned, checked_undone,
  ◌>>=◌,
}
use axit_project.Domain.Models.{JobState, succeeded, job_state_eq}
use axit_project.Queue.{
  Job, Attempt, attempt_succeeded, attempt_failed, JobResult, Tables, ClaimedJob,
}
use axit_project.Queue.Checks.{check_completion}
use axit_project.Queue.Complete.{
  held_by, finish, attempt_of, ended, update_one_job, insert_result, store_result, close_attempt,
  complete_with_effects, complete,
}
use axit_project.Queue.Changed.{
  Changed, sole_change, IsHeld, IsOpenAttempt, held_by-IsHeld, attempt_of-IsOpenAttempt,
}
use axit_project.Queue.Invariant.Effects.{update_one_job_ok, close_attempt_ok}

-- The writes of a completion.
pub record IsCompleted (sha256 : Chars → String) (claimed : ClaimedJob) (target : JobState)
    (result : Fields) (code : Option String) (result_id started now : ℕ) (db t : Tables)
    : Type 0 where
  pub job :
      Changed
        (IsHeld claimed now)
        (λ (j : Job). record j {
          state = target;
          lease_token = none;
          lease_owner = none;
          lease_until = none;
          heartbeat_at = some now;
          error_code = code;
          updated_at = now;
        })
        db.jobs
        t.jobs
  pub attempt :
      Changed
        (IsOpenAttempt claimed)
        (λ (a : Attempt). record a {
          ended_at = some started;
          status = if target == succeeded then attempt_succeeded else attempt_failed;
          error_code = code;
        })
        db.job_attempts
        t.job_attempts
  pub stored :
      target ≡ succeeded
      → (encoded : Chars) × (canonical_json_bytes result ≡ ok encoded)
        × (t.job_results
            ≡ db.job_results
              ++ record {
                id = result_id;
                job_id = claimed.id;
                result_json = result;
                result_hash = sha256 encoded;
                created_at = started;
              }
                ∷ [])
  pub not_stored : target ≢ succeeded → t.job_results ≡ db.job_results
  pub snapshots : t.snapshots ≡ db.snapshots

module _ (sha256 : Chars → String) (claimed : ClaimedJob) (target : JobState) (result : Fields)
    (result_id now : ℕ) (db t : Tables) where
  insert_result_ok :
      (row : JobResult)
      → insert_result row db ≡ (ok tt, t)
      → t ≡ record db { job_results = db.job_results ++ row ∷ [] }
  unfolding insert_result
  insert_result_ok row h =
      elim (Bool-cases
        (any_by (λ (r : JobResult). r.id == row.id || r.job_id == row.job_id) db.job_results)) [
          | inl clash ↦ absurd (ground (arith, clash))
          | inr free ↦ ground (arith, free)
        ]

  store_result_succeeded :
      store_result sha256 claimed target result result_id now db ≡ (ok tt, t)
      → target ≡ succeeded
      → (encoded : Chars) × (canonical_json_bytes result ≡ ok encoded)
        × (t ≡ record db {
          job_results =
              db.job_results
              ++ record {
                id = result_id;
                job_id = claimed.id;
                result_json = result;
                result_hash = sha256 encoded;
                created_at = now;
              }
                ∷ [];
        })
  unfolding store_result
  store_result_succeeded h success = elim (Result-cases (canonical_json_bytes result)) [
    | inl (encoded, e) ↦ (encoded, e, insert_result_ok _ (ground (arith, e, success)))
    | inr (x, e) ↦ absurd (ground (arith, e, success))
  ]

  store_result_failed :
      store_result sha256 claimed target result result_id now db ≡ (ok tt, t)
      → target ≢ succeeded
      → t ≡ db
  unfolding store_result
  store_result_failed h failure = ground arith

  store_result_rest :
      store_result sha256 claimed target result result_id now db ≡ (ok tt, t)
      → (t.jobs ≡ db.jobs) × (t.job_attempts ≡ db.job_attempts) × (t.snapshots ≡ db.snapshots)
  store_result_rest h = elim (Bool-cases (target == succeeded)) [
    | inl success ↦
        let (encoded, _, e) = store_result_succeeded h (ground arith) in
        (
          ap (λ (u : Tables). u.jobs) e,
          ap (λ (u : Tables). u.job_attempts) e,
          ap (λ (u : Tables). u.snapshots) e,
        )
    | inr failure ↦
        let e = store_result_failed h (λ same. ground arith) in
        (
          ap (λ (u : Tables). u.jobs) e,
          ap (λ (u : Tables). u.job_attempts) e,
          ap (λ (u : Tables). u.snapshots) e,
        )
  ]

module _ (sha256 : Chars → String) (claimed : ClaimedJob) (target : JobState) (result : Fields)
    (code : Option String) (result_id started now : ℕ) (db : Tables) where
  abbrev first_step : Exec Tables (Unit {0})
  first_step = update_one_job (held_by claimed now) (finish target code now)

  abbrev third_step : Exec Tables (Unit {0})
  third_step = store_result sha256 claimed target result result_id started

  abbrev last_step : Exec Tables (Unit {0})
  last_step = close_attempt claimed target code started

  abbrev steps : Exec Tables (Unit {0})
  steps = first_step >>= λ _. pure tt >>= λ _. third_step >>= λ _. last_step

  steps-IsCompleted :
      (t : Tables)
      → steps db ≡ (ok tt, t)
      → IsCompleted sha256 claimed target result code result_id started now db t
  steps-IsCompleted t ran =
      let (_, s1, updated, rest) =
        returned first_step (λ _. pure tt >>= λ _. third_step >>= λ _. last_step) db {t = t} ran in
      let (_, s2, kept, closed) = returned third_step (λ _. last_step) s1 {t = t} rest in
      let (one, e1) =
        update_one_job_ok (held_by claimed now) (finish target code now) db s1 updated in
      let (one_attempt, e3) = close_attempt_ok claimed target code started s2 t closed in
      let (jobs2, attempts2, snapshots2) =
        store_result_rest sha256 claimed target result result_id started s1 s2 kept in
      let results3 = ap (λ (u : Tables). u.job_results) e3 in
      let results1 = ap (λ (u : Tables). u.job_results) e1 in
      let attempts : s2.job_attempts ≡ db.job_attempts =
        attempts2 ∙ ap (λ (u : Tables). u.job_attempts) e1 in
      record {
        job =
            subst (Changed (IsHeld claimed now) (finish target code now) db.jobs)
              (sym (ap (λ (u : Tables). u.jobs) e3 ∙ jobs2 ∙ ap (λ (u : Tables). u.jobs) e1))
              (sole_change (held_by claimed now) (finish target code now) (IsHeld claimed now)
                (held_by-IsHeld claimed now) db.jobs one);
        attempt =
            subst (Changed (IsOpenAttempt claimed) (ended target code started) db.job_attempts)
              (sym (
                ap (λ (u : Tables). u.job_attempts) e3
                ∙ ap (update_where (attempt_of claimed) (ended target code started)) attempts))
              (sole_change (attempt_of claimed) (ended target code started) (IsOpenAttempt claimed)
                (attempt_of-IsOpenAttempt claimed) db.job_attempts
                (subst (λ rows. count_by (attempt_of claimed) rows ≡ 1) attempts one_attempt));
        stored = λ success.
            let (encoded, encodes, e2) =
              store_result_succeeded sha256 claimed target result result_id started s1 s2 kept
                success in
            (
              encoded,
              encodes,
              results3
                  ∙ ap (λ (u : Tables). u.job_results) e2
                  ∙ ap
                      (λ rows.
                        rows
                        ++ record {
                          id = result_id;
                          job_id = claimed.id;
                          result_json = result;
                          result_hash = sha256 encoded;
                          created_at = started;
                        }
                          ∷ [])
                      results1,
            );
        not_stored = λ failure.
            results3
            ∙ ap (λ (u : Tables). u.job_results)
                (store_result_failed sha256 claimed target result result_id started s1 s2 kept
                  failure)
            ∙ results1;
        snapshots =
            ap (λ (u : Tables). u.snapshots) e3 ∙ snapshots2 ∙ ap (λ (u : Tables). u.snapshots) e1;
      }

  -- A completion without further effects does all of its writes or none. When it returns, the one
  -- row that changed among the jobs ran under the claim's generation and token with its lease not
  -- ended, and has the new state, the error code and no lease; the claim's open attempt, and no
  -- other, has ended with that code; a success stored the result and its hash, anything else stored
  -- none. When it raises, the tables are as they were.
  pub complete-IsCompleted :
      (t : Tables)
      → (complete sha256 claimed target result code result_id started now db ≡ (ok tt, t)
          → IsCompleted sha256 claimed target result code result_id started now db t)
        × ((e : Error)
            → complete sha256 claimed target result code result_id started now db ≡ (err e, t)
            → t ≡ db)
  unfolding complete complete_with_effects
  complete-IsCompleted t = (
    λ h.
        let (_, _, rest) = lift_returned (check_completion target code) _ db {t = t} h in
        steps-IsCompleted t (transaction_returned steps db {t = t} rest),
    λ e h. checked_undone (check_completion target code) _ db e t h,
  )
