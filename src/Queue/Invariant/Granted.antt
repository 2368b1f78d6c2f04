-- ===== src/Queue/Invariant/Granted.antt =====
-- The tables after a claim's writes.
use axit_project.Prelude.{
  ℕ, ◌+◌, ◌≤◌, ◌≡◌, refl, sym, ap, ◌∙◌, Bool, true, false, ◌&&◌, ◌||◌, List, [], ◌∷◌, ◌++◌, ◌==◌,
  All-zip, arith, String, string_eq, nat_eq, nat_eqb_iff, inl, inr, Bool-cases, ℤ,
}
use axit_project.Database.{count_by, update_where}
use axit_project.Database.Rows.{
  count_by-append, count_by-update_where, count_by_mono, All-update_where,
}
use axit_project.Database.Sole.{All-sole, count_by_unseen, count_by_removed}
use axit_project.Domain.Models.{pending, running, succeeded, job_state_eq}
use axit_project.Queue.{Job, Attempt, JobResult}
use axit_project.Queue.Claim.{is_open, grant, new_attempt}
use axit_project.Queue.Invariant.{
  IsConsistent, IsWellFormed, has_id, has_key, open_of, current_of, later_of, for_job, one_if,
}

-- A row that may be claimed, in the generation that was read.
abbrev pub is_chosen : Job → Job → Bool
is_chosen row j =
    j.id == row.id
    && j.lease_generation == row.lease_generation
    && (j.state == pending || j.state == running)

module _ (row : Job) (token attempt_id : ℕ) (owner : String) (started now : ℕ) (seconds : ℤ)
    (attempts : List Attempt) (results : List JobResult) (x : Attempt → Bool)
    (f : Attempt → Attempt)
    (closes : (a : Attempt) → x a ≡ true → (open_of row.id a ≡ true) × (is_open (f a) ≡ false))
    (keeps : (a : Attempt)
      → ((f a).job_id ≡ a.job_id) × ((f a).lease_generation ≡ a.lease_generation))
    (enough : count_by (open_of row.id) attempts ≤ count_by x attempts) where
  abbrev opened : Attempt
  opened = new_attempt attempt_id row (row.lease_generation + 1) token owner started

  abbrev pub claim_attempts : List Attempt
  claim_attempts = update_where x f attempts ++ opened ∷ []

  abbrev granted : Job → Job
  granted = grant (row.lease_generation + 1) token owner now seconds

  append_opened :
      (q : Attempt → Bool)
      → count_by q claim_attempts ≡ count_by q (update_where x f attempts) + one_if (q opened)
  unfolding count_by
  append_opened q = ground (arith, count_by-append q (update_where x f attempts) (opened ∷ []))

  none_open : count_by (open_of row.id) (update_where x f attempts) ≡ 0
  none_open = omega (
    arith,
    enough,
    count_by_removed (open_of row.id) x f attempts (λ a e. (closes a e).0)
        (λ a e. ground (arith, closes a e)),
  )

  later_kept :
      (j : Job) → count_by (later_of j) (update_where x f attempts) ≡ count_by (later_of j) attempts
  later_kept j = count_by-update_where (later_of j) x f attempts (λ a. ground (arith, keeps a))

  granted-IsConsistent :
      (j : Job)
      → IsConsistent attempts results j
      → j.id ≡ row.id
      → j.lease_generation ≡ row.lease_generation
      → (j.state == succeeded) ≡ false
      → IsConsistent claim_attempts results (granted j)
  granted-IsConsistent j c same_id same_generation unfinished = record {
    token_shape = refl;
    owner_shape = refl;
    until_shape = refl;
    error_shape = refl;
    one_open = ground (arith, append_opened (open_of j.id), none_open, same_id);
    one_current = ground (
      arith,
      append_opened (current_of (granted j)),
      same_id,
      c.none_later,
      later_kept j,
      count_by_mono (current_of (granted j)) (later_of j) (update_where x f attempts)
          (λ a e. ground arith),
    );
    none_later = ground (
      arith,
      append_opened (later_of (granted j)),
      c.none_later,
      later_kept j,
      count_by_mono (later_of (granted j)) (later_of j) (update_where x f attempts)
          (λ a e. ground arith),
    );
    one_result = ground (arith, c.one_result);
  }

  other-IsConsistent :
      (j : Job)
      → IsConsistent attempts results j
      → has_id row.id j ≡ false
      → IsConsistent claim_attempts results j
  other-IsConsistent j c other = record {
    token_shape = c.token_shape;
    owner_shape = c.owner_shape;
    until_shape = c.until_shape;
    error_shape = c.error_shape;
    one_open = ground (
      arith,
      append_opened (open_of j.id),
      c.one_open,
      count_by_unseen (open_of j.id) x f attempts (λ a e. ground (arith, closes a e))
          (λ a e. ground (arith, closes a e, keeps a)),
    );
    one_current = ground (
      arith,
      append_opened (current_of j),
      c.one_current,
      count_by_unseen (current_of j) x f attempts (λ a e. ground (arith, closes a e))
          (λ a e. ground (arith, closes a e, keeps a)),
    );
    none_later = ground (arith, append_opened (later_of j), c.none_later, later_kept j);
    one_result = c.one_result;
  }

  not_row :
      (jobs : List Job)
      → 1 ≤ count_by (is_chosen row) jobs
      → (id : ℕ) → count_by (has_id id) jobs ≡ 0
      → (row.id == id) ≡ false
  not_row jobs there id absent = elim (Bool-cases (row.id == id)) [
    | inl same ↦ absurd (
        omega (
          arith,
          there,
          ap (λ v. count_by (has_id v) jobs) ((nat_eqb_iff row.id id).0 same) ∙ absent,
          count_by_mono (is_chosen row) (has_id row.id) jobs (λ j e. ground arith),
        ))
    | inr other ↦ other
  ]

  pub granted-IsWellFormed :
      (jobs : List Job) (snapshots : List ℕ)
      → IsWellFormed (record {
        jobs = jobs;
        job_attempts = attempts;
        job_results = results;
        snapshots = snapshots;
      })
      → 1 ≤ count_by (is_chosen row) jobs
      → IsWellFormed (record {
        jobs = update_where (has_id row.id) granted jobs;
        job_attempts = claim_attempts;
        job_results = results;
        snapshots = snapshots;
      })
  granted-IsWellFormed jobs snapshots h there =
      let t = has_id row.id in
      let rows = λ (id : ℕ). count_by-update_where (has_id id) t granted jobs (λ j. refl) in
      let keys = λ (key : String). count_by-update_where (has_key key) t granted jobs (λ j. refl) in
      let narrow = count_by_mono (is_chosen row) t jobs (λ j e. ground arith) in
      let sole =
        All-sole t (is_chosen row) (λ j e. ground arith) jobs (h.one_row row.id)
          (omega (arith, there, narrow, h.one_row row.id)) in
      record {
        one_row = λ id. rw (rows id) (h.one_row id);
        one_key = λ key. rw (keys key) (h.one_key key);
        attempts_known = λ id e. ground (
          arith,
          append_opened (for_job id),
          count_by-update_where (for_job id) x f attempts (λ a. ground (arith, keeps a)),
          h.attempts_known id (sym (rows id) ∙ e),
          not_row jobs there id (sym (rows id) ∙ e),
        );
        results_known = λ id e. h.results_known id (sym (rows id) ∙ e);
        consistent =
            All-update_where (λ j. IsConsistent attempts results j × (t j ≡ (is_chosen row) j))
              (IsConsistent claim_attempts results) t granted jobs
              (λ j p e.
                granted-IsConsistent j p.0 (ground (arith, p.1)) (ground (arith, p.1))
                  (ground (arith, p.1)))
              (λ j p e. other-IsConsistent j p.0 e) (All-zip _ _ jobs h.consistent sole);
      }
