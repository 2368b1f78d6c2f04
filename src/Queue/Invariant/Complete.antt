-- ===== src/Queue/Invariant/Complete.antt =====
-- The rows that `complete_with_effects` writes, against the invariant.
use axit_project.Prelude.{
  ℕ, ◌≡◌, refl, sym, ap, ◌∙◌, true, false, ◌&&◌, List, ◌++◌, Option, ◌==◌, All-zip, arith, String,
  string_eq, nat_eq, nat_eqb_iff, inl, inr, Bool-cases,
}
use axit_project.Database.{count_by, update_where}
use axit_project.Database.Rows.{
  count_by-append, count_by-update_where, count_by_never, count_by_mono, All-update_where,
}
use axit_project.Database.Sole.{All-sole, count_by_unseen, count_by_removed}
use axit_project.Domain.Models.{JobState, running, succeeded, job_state_eq}
use axit_project.Domain.Leases.{is_completion_state}
use axit_project.Queue.{Job, Attempt, JobResult, ClaimedJob}
use axit_project.Queue.Complete.{held_by, finish, attempt_of, ended}
use axit_project.Queue.Invariant.{
  IsConsistent, IsWellFormed, has_id, has_key, open_of, current_of, later_of, result_of, for_job,
  is_some, is_failed, one_if,
}

-- A job that is not there is not the one that was held.
absent_ne :
    (claimed : ClaimedJob) (now : ℕ) (jobs : List Job)
    → count_by (held_by claimed now) jobs ≡ 1
    → (id : ℕ) → count_by (has_id id) jobs ≡ 0
    → (id == claimed.id) ≡ false
absent_ne claimed now jobs one id absent = elim (Bool-cases (id == claimed.id)) [
  | inl same ↦ absurd (
      omega (
        arith,
        sym (ap (λ v. count_by (has_id v) jobs) ((nat_eqb_iff id claimed.id).0 same)) ∙ absent,
        count_by_mono (held_by claimed now) (has_id claimed.id) jobs (λ j e. ground arith),
      ))
  | inr other ↦ other
]

module _ (claimed : ClaimedJob) (target : JobState) (code : Option String) (now ending : ℕ)
    (final : is_completion_state target ≡ true) (coded : is_some code ≡ is_failed target)
    (attempts : List Attempt) (results more : List JobResult)
    (one_attempt : count_by (attempt_of claimed) attempts ≡ 1)
    (stored : (id : ℕ)
      → count_by (result_of id) more ≡ one_if (id == claimed.id && target == succeeded)) where
  abbrev pub closed_attempts : List Attempt
  closed_attempts = update_where (attempt_of claimed) (ended target code ending) attempts

  later_kept : (j : Job) → count_by (later_of j) closed_attempts ≡ count_by (later_of j) attempts
  later_kept j =
      count_by-update_where (later_of j) (attempt_of claimed) (ended target code ending) attempts
        (λ a. refl)

  -- The row that the worker held.
  finish-IsConsistent :
      (j : Job)
      → IsConsistent attempts results j
      → held_by claimed now j ≡ true
      → IsConsistent closed_attempts (results ++ more) (finish target code now j)
  finish-IsConsistent j c held =
      let same_id : j.id ≡ claimed.id = ground arith in
      let was_running : j.state ≡ running = ground arith in
      record {
        token_shape = ground arith;
        owner_shape = ground arith;
        until_shape = ground arith;
        error_shape = coded;
        one_open = ground (
          arith,
          c.one_open,
          count_by_removed (open_of j.id) (attempt_of claimed) (ended target code ending) attempts
              (λ a e. ground arith) (λ a e. ground arith),
        );
        one_current = ground (
          arith,
          count_by_never (current_of (finish target code now j)) closed_attempts
              (λ a. ground arith),
        );
        none_later = later_kept j ∙ c.none_later;
        one_result =
            ground
              (arith, c.one_result, stored j.id, count_by-append (result_of j.id) results more);
      }

  -- The rows of other jobs.
  other-IsConsistent :
      (j : Job)
      → IsConsistent attempts results j
      → has_id claimed.id j ≡ false
      → IsConsistent closed_attempts (results ++ more) j
  other-IsConsistent j c other = record {
    token_shape = c.token_shape;
    owner_shape = c.owner_shape;
    until_shape = c.until_shape;
    error_shape = c.error_shape;
    one_open =
        count_by_unseen (open_of j.id) (attempt_of claimed) (ended target code ending) attempts
          (λ a e. ground arith) (λ a e. ground arith)
        ∙ c.one_open;
    one_current =
        count_by_unseen (current_of j) (attempt_of claimed) (ended target code ending) attempts
          (λ a e. ground arith) (λ a e. ground arith)
        ∙ c.one_current;
    none_later = later_kept j ∙ c.none_later;
    one_result =
        ground (arith, c.one_result, stored j.id, count_by-append (result_of j.id) results more);
  }

  -- The tables after the row, the result and the attempt are written.
  pub completed-IsWellFormed :
      (jobs : List Job) (snapshots : List ℕ)
      → IsWellFormed (record {
        jobs = jobs;
        job_attempts = attempts;
        job_results = results;
        snapshots = snapshots;
      })
      → count_by (held_by claimed now) jobs ≡ 1
      → IsWellFormed (record {
        jobs = update_where (held_by claimed now) (finish target code now) jobs;
        job_attempts = closed_attempts;
        job_results = results ++ more;
        snapshots = snapshots;
      })
  completed-IsWellFormed jobs snapshots h one =
      let t = held_by claimed now in
      let f = finish target code now in
      let rows = λ (id : ℕ). count_by-update_where (has_id id) t f jobs (λ j. refl) in
      let keys = λ (key : String). count_by-update_where (has_key key) t f jobs (λ j. refl) in
      let sole =
        All-sole (has_id claimed.id) t (λ j e. ground arith) jobs (h.one_row claimed.id) one in
      record {
        one_row = λ id. rw (rows id) (h.one_row id);
        one_key = λ key. rw (keys key) (h.one_key key);
        attempts_known = λ id e.
            count_by-update_where (for_job id) (attempt_of claimed) (ended target code ending)
              attempts (λ a. refl)
            ∙ h.attempts_known id (sym (rows id) ∙ e);
        results_known = λ id e. ground (
          arith,
          count_by-append (result_of id) results more,
          stored id,
          absent_ne claimed now jobs one id (sym (rows id) ∙ e),
          h.results_known id (sym (rows id) ∙ e),
        );
        consistent =
            All-update_where (λ j. IsConsistent attempts results j × (has_id claimed.id j ≡ t j))
              (IsConsistent closed_attempts (results ++ more)) t f jobs
              (λ j p e. finish-IsConsistent j p.0 e) (λ j p e. other-IsConsistent j p.0 (p.1 ∙ e))
              (All-zip _ _ jobs h.consistent sole);
      }
