-- ===== src/Session/Requeue.antt =====
-- What the rounds of a retry do to the runs and the jobs.
use axit_project.Prelude.{
  ℕ, ◌+◌, ◌≡◌, refl, sym, ap, ◌∙◌, Bool, false, ◌&&◌, List, [], ◌∷◌, none, some, ◌==◌, length, ok,
  arith, nat_eq, string_eq, nat_eqb_iff,
}
use axit_project.Database.{count_by, update_where, guarded, returned}
use axit_project.Errors.{session_retry_unavailable_error}
use axit_project.Database.Rows.{length-update_where}
use axit_project.Database.Sole.{count_by_removed}
use axit_project.Domain.Models.{
  failed_retryable, job_state_eq, GenerationKind, is_retryable_failure,
}
use axit_project.Queue.{Job}
use axit_project.Queue.Invariant.Leases.{update_jobs-IsWellFormed, requeued-IsConsistent}
use axit_project.Session.{GenerationRun, Store}
use axit_project.Session.Retry.{
  retryable_job, requeue_job, retryable_run, requeue_run, update_job, update_run, requeue_kinds,
}
use axit_project.Session.Quiet.{Quiet, Quiet-refl, Quiet-trans}

-- The failures of a snapshot that may be retried.
abbrev pub failed_run : ℕ → GenerationRun → Bool
failed_run snapshot_id r = r.snapshot_id == snapshot_id && is_retryable_failure r.state

abbrev pub failed_job : ℕ → Job → Bool
failed_job snapshot_id j =
    elim j.snapshot_id [ none ↦ false | some s ↦ s == snapshot_id ] && j.state == failed_retryable

-- `rounds` failed runs were queued again, and as many failed jobs; no row was added or removed.
pub record Requeued (snapshot_id rounds : ℕ) (before after : Store) : Type 0 where
  pub runs :
      count_by (failed_run snapshot_id) after.generation_runs + rounds
      ≡ count_by (failed_run snapshot_id) before.generation_runs
  pub jobs :
      count_by (failed_job snapshot_id) after.queue.jobs + rounds
      ≡ count_by (failed_job snapshot_id) before.queue.jobs
  pub same_runs : length after.generation_runs ≡ length before.generation_runs
  pub same_jobs : length after.queue.jobs ≡ length before.queue.jobs
  pub quiet : Quiet before after

pub update_job_ok :
    (now snapshot_id : ℕ) (kind : GenerationKind) (db t : Store)
    → update_job now snapshot_id kind db ≡ (ok tt, t)
    → (count_by (retryable_job snapshot_id kind) db.queue.jobs ≡ 1)
      × (t ≡ record db {
        queue = record db.queue {
          jobs = update_where (retryable_job snapshot_id kind) (requeue_job now) db.queue.jobs;
        };
      })
unfolding update_job
update_job_ok now snapshot_id kind db t h =
    let (one, e) =
      guarded (count_by (retryable_job snapshot_id kind) db.queue.jobs == 1)
        session_retry_unavailable_error db _ t h in
    ((nat_eqb_iff _ _).0 one, e)

pub update_run_ok :
    (snapshot_id : ℕ) (kind : GenerationKind) (db t : Store)
    → update_run snapshot_id kind db ≡ (ok tt, t)
    → (count_by (retryable_run snapshot_id kind) db.generation_runs ≡ 1)
      × (t ≡ record db {
        generation_runs =
            update_where (retryable_run snapshot_id kind) requeue_run db.generation_runs;
      })
unfolding update_run
update_run_ok snapshot_id kind db t h =
    let (one, e) =
      guarded (count_by (retryable_run snapshot_id kind) db.generation_runs == 1)
        session_retry_unavailable_error db _ t h in
    ((nat_eqb_iff _ _).0 one, e)

-- The two updates of a round.
round_Requeued :
    (now snapshot_id : ℕ) (kind : GenerationKind) (db s t : Store)
    → update_job now snapshot_id kind db ≡ (ok tt, s)
    → update_run snapshot_id kind s ≡ (ok tt, t)
    → Requeued snapshot_id 1 db t
round_Requeued now snapshot_id kind db s t h k =
    let (one_job, e) = update_job_ok now snapshot_id kind db s h in
    let (one_run, e') = update_run_ok snapshot_id kind s t k in
    let same_runs : s.generation_runs ≡ db.generation_runs =
      ap (λ (u : Store). u.generation_runs) e in
    let runs_after = ap (λ (u : Store). u.generation_runs) e' in
    let jobs_after = ap (λ (u : Store). u.queue.jobs) e' ∙ ap (λ (u : Store). u.queue.jobs) e in
    let removed_runs =
      count_by_removed (failed_run snapshot_id) (retryable_run snapshot_id kind) requeue_run
        s.generation_runs (λ r c. ground (arith, c)) (λ r c. ground arith) in
    let removed_jobs =
      count_by_removed (failed_job snapshot_id) (retryable_job snapshot_id kind) (requeue_job now)
        db.queue.jobs (λ j c. ground (arith, c)) (λ j c. ground arith) in
    record {
      runs = rw (runs_after, sym same_runs) (omega (arith, removed_runs, one_run));
      jobs = rw jobs_after (omega (arith, removed_jobs, one_job));
      same_runs =
          rw (runs_after, sym same_runs)
            (length-update_where (retryable_run snapshot_id kind) requeue_run s.generation_runs);
      same_jobs =
          rw jobs_after
            (length-update_where (retryable_job snapshot_id kind) (requeue_job now) db.queue.jobs);
      quiet = record {
        members =
            ap (λ (u : Store). u.room_memberships) e' ∙ ap (λ (u : Store). u.room_memberships) e;
        sessions = ap (λ (u : Store). u.talk_sessions) e' ∙ ap (λ (u : Store). u.talk_sessions) e;
        snapshots =
            ap (λ (u : Store). u.generation_snapshots) e'
            ∙ ap (λ (u : Store). u.generation_snapshots) e;
        queue = λ w. rw (ap (λ (u : Store). u.queue) e' ∙ ap (λ (u : Store). u.queue) e) (
            update_jobs-IsWellFormed (retryable_job snapshot_id kind) (requeue_job now) (λ j. refl)
              (λ j. refl) db.queue
              (λ j c chosen.
                requeued-IsConsistent now db.queue.job_attempts db.queue.job_results j c
                  (ground (arith, chosen)))
              w);
      };
    }

pub requeue_kinds_ok :
    (now snapshot_id : ℕ) (kinds : List GenerationKind) (db t : Store)
    → requeue_kinds now snapshot_id kinds db ≡ (ok tt, t)
    → Requeued snapshot_id (length kinds) db t
unfolding requeue_kinds
requeue_kinds_ok now snapshot_id [] db t h = rw (sym (ap (λ r. r.1) h)) (record {
  runs = omega arith;
  jobs = omega arith;
  same_runs = refl;
  same_jobs = refl;
  quiet = Quiet-refl db;
})
requeue_kinds_ok now snapshot_id (kind ∷ rest) db t h =
    let (_, s, e1, h1) = returned (update_job now snapshot_id kind) _ db {t = t} h in
    let (_, u, e2, h2) = returned (update_run snapshot_id kind) _ s {t = t} h1 in
    let first = round_Requeued now snapshot_id kind db s u e1 e2 in
    let later = requeue_kinds_ok now snapshot_id rest u t h2 in
    record {
      runs = omega (arith, first.runs, later.runs);
      jobs = omega (arith, first.jobs, later.jobs);
      same_runs = later.same_runs ∙ first.same_runs;
      same_jobs = later.same_jobs ∙ first.same_jobs;
      quiet = Quiet-trans db u t first.quiet later.quiet;
    }
