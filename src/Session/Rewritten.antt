-- ===== src/Session/Rewritten.antt =====
-- Which rows a retry writes, and what it writes in them.
use axit_project.Prelude.{
  ℕ, ◌≡◌, refl, sym, ap, ◌∙◌, inl, inr, Bool, true, false, ◌&&◌, ◌||◌, List, [], ◌∷◌, map, none,
  ◌==◌, any_by, filter_by, All, All-mono, arith, ok, nat_eq, string_eq, Bool-cases, beq_refl,
}
use axit_project.Database.{update_where, returned}
use axit_project.Domain.Models.{pending, queued, job_state_eq, GenerationKind, kind_value}
use axit_project.Queue.{Job}
use axit_project.Session.{GenerationRun, Store, is_null}
use axit_project.Session.Retry.{
  retryable_job, requeue_job, retryable_run, requeue_run, update_job, update_run, requeue_kinds,
  retryable_kinds,
}
use axit_project.Session.Requeue.{failed_run, failed_job, update_job_ok, update_run_ok}

module _ {ℓ} {A : Type ℓ} (f : A → A) where
  update_where-never :
      (p : A → Bool) (xs : List A) → ((x : A) → p x ≡ false) → update_where p f xs ≡ xs
  unfolding update_where
  update_where-never p [] h = refl
  update_where-never p (x ∷ xs) h = rw (h x) (ap (λ ys. x ∷ ys) (update_where-never p xs h))

  update_where_ext :
      (p q : A → Bool) (xs : List A)
      → All (λ x. p x ≡ q x) xs
      → update_where p f xs ≡ update_where q f xs
  unfolding update_where
  update_where_ext p q [] h = refl
  update_where_ext p q (x ∷ xs) h = ground (arith, update_where_ext p q xs h.1, h.0)

  -- Two updates with the same change, the second of rows that the first left.
  update_where_twice :
      (p q : A → Bool) (xs : List A)
      → ((x : A) → p x ≡ true → q (f x) ≡ false)
      → update_where q f (update_where p f xs) ≡ update_where (λ x. p x || q x) f xs
  unfolding update_where
  update_where_twice p q [] h = refl
  update_where_twice p q (x ∷ xs) h = ground (arith, update_where_twice p q xs h, h x)

All-each {ℓ κ} : {A : Type ℓ} (P : A → Type κ) (xs : List A) → ((x : A) → P x) → All P xs
All-each P [] h = tt
All-each P (x ∷ xs) h = (h x, All-each P xs h)

abbrev names_kind : List GenerationKind → GenerationRun → Bool
names_kind kinds r = any_by (λ kind. kind_value r.kind == kind_value kind) kinds

-- A failed job of the snapshot that nobody holds, of one of the kinds.
abbrev pub waits : ℕ → List GenerationKind → Job → Bool
waits snapshot_id kinds j =
    failed_job snapshot_id j
    && is_null j.lease_token
    && is_null j.lease_owner
    && is_null j.lease_until
    && any_by (λ kind. j.kind == kind_value kind) kinds

abbrev chosen_run : ℕ → List GenerationKind → GenerationRun → Bool
chosen_run snapshot_id kinds r = any_by (λ kind. retryable_run snapshot_id kind r) kinds

abbrev chosen_job : ℕ → List GenerationKind → Job → Bool
chosen_job snapshot_id kinds j = any_by (λ kind. retryable_job snapshot_id kind j) kinds

chosen_run_lem :
    (snapshot_id : ℕ) (kinds : List GenerationKind) (r : GenerationRun)
    → chosen_run snapshot_id kinds r ≡ (failed_run snapshot_id r && names_kind kinds r)
chosen_run_lem snapshot_id [] r = ground arith
chosen_run_lem snapshot_id (kind ∷ rest) r = ground (arith, chosen_run_lem snapshot_id rest r)

chosen_job_lem :
    (snapshot_id : ℕ) (kinds : List GenerationKind) (j : Job)
    → chosen_job snapshot_id kinds j ≡ waits snapshot_id kinds j
chosen_job_lem snapshot_id [] j = ground arith
chosen_job_lem snapshot_id (kind ∷ rest) j = ground (arith, chosen_job_lem snapshot_id rest j)

-- The kinds that a retry reads name the kind of every failed run.
named :
    (snapshot_id : ℕ) (runs : List GenerationRun)
    → All
        (λ r.
          failed_run snapshot_id r ≡ true
          → names_kind
              (map (λ (x : GenerationRun). x.kind) (filter_by (failed_run snapshot_id) runs))
              r
            ≡ true)
        runs
named snapshot_id [] = tt
named snapshot_id (x ∷ runs) = elim (Bool-cases (failed_run snapshot_id x)) [
  | inl failed ↦ (
    λ e. ground (arith, failed, beq_refl (kind_value x.kind)),
    All-mono _ _ runs (λ r h e. ground (arith, h e, failed)) (named snapshot_id runs),
  )
  | inr other ↦ (
    λ e. absurd (ground (arith, e, other)),
    All-mono _ _ runs (λ r h e. ground (arith, h e, other)) (named snapshot_id runs),
  )
]

requeue_kinds_rows :
    (now snapshot_id : ℕ) (kinds : List GenerationKind) (db t : Store)
    → requeue_kinds now snapshot_id kinds db ≡ (ok tt, t)
    → (t.generation_runs
        ≡ update_where (chosen_run snapshot_id kinds) requeue_run db.generation_runs)
      × (t.queue.jobs ≡ update_where (chosen_job snapshot_id kinds) (requeue_job now) db.queue.jobs)
unfolding requeue_kinds
requeue_kinds_rows now snapshot_id [] db t h = rw (sym (ap (λ r. r.1) h)) (
  sym (update_where-never requeue_run _ db.generation_runs (λ r. refl)),
  sym (update_where-never (requeue_job now) _ db.queue.jobs (λ j. refl)),
)
requeue_kinds_rows now snapshot_id (kind ∷ rest) db t h =
    let (_, s, e1, h1) = returned (update_job now snapshot_id kind) _ db {t = t} h in
    let (_, u, e2, h2) = returned (update_run snapshot_id kind) _ s {t = t} h1 in
    let (_, job) = update_job_ok now snapshot_id kind db s e1 in
    let (_, run) = update_run_ok snapshot_id kind s u e2 in
    let (runs, jobs) = requeue_kinds_rows now snapshot_id rest u t h2 in
    let run_rows : u.generation_runs
        ≡ update_where (retryable_run snapshot_id kind) requeue_run db.generation_runs =
      ap (λ (x : Store). x.generation_runs) run
      ∙ ap
          (λ (x : Store).
            update_where (retryable_run snapshot_id kind) requeue_run x.generation_runs)
          job in
    let job_rows : u.queue.jobs
        ≡ update_where (retryable_job snapshot_id kind) (requeue_job now) db.queue.jobs =
      ap (λ (x : Store). x.queue.jobs) run ∙ ap (λ (x : Store). x.queue.jobs) job in
    (
      runs
          ∙ ap (update_where (chosen_run snapshot_id rest) requeue_run) run_rows
          ∙ update_where_twice requeue_run (retryable_run snapshot_id kind)
              (chosen_run snapshot_id rest) db.generation_runs
              (λ r e. ground (arith, chosen_run_lem snapshot_id rest (requeue_run r))),
      jobs
          ∙ ap (update_where (chosen_job snapshot_id rest) (requeue_job now)) job_rows
          ∙ update_where_twice (requeue_job now) (retryable_job snapshot_id kind)
              (chosen_job snapshot_id rest) db.queue.jobs
              (λ j e. ground (arith, chosen_job_lem snapshot_id rest (requeue_job now j))),
    )

-- The rows that are written: a retryable run of the snapshot is queued without its error and its
-- time of completion, a waiting job is pending without its error, and all else stays.
pub record Rewritten (now snapshot_id : ℕ) (kinds : List GenerationKind) (before after : Store)
    : Type 0 where
  pub runs_written :
      after.generation_runs
      ≡ update_where
          (failed_run snapshot_id)
          (λ (r : GenerationRun). record r {
            state = queued;
            error_code = none;
            completed_at = none;
          })
          before.generation_runs
  pub jobs_written :
      after.queue.jobs
      ≡ update_where
          (waits snapshot_id kinds)
          (λ (j : Job). record j { state = pending; error_code = none; updated_at = now })
          before.queue.jobs

pub requeue_kinds-Rewritten :
    (now snapshot_id : ℕ) (db t : Store)
    → requeue_kinds now snapshot_id (retryable_kinds snapshot_id db) db ≡ (ok tt, t)
    → Rewritten now snapshot_id (retryable_kinds snapshot_id db) db t
unfolding retryable_kinds
requeue_kinds-Rewritten now snapshot_id db t h =
    let kinds = retryable_kinds snapshot_id db in
    let (runs, jobs) = requeue_kinds_rows now snapshot_id kinds db t h in
    record {
      runs_written =
          runs
          ∙ update_where_ext requeue_run (chosen_run snapshot_id kinds) (failed_run snapshot_id)
              db.generation_runs
              (All-mono _ _ db.generation_runs
                (λ r covered. chosen_run_lem snapshot_id kinds r ∙ ground (arith, covered))
                (named snapshot_id db.generation_runs));
      jobs_written =
          jobs
          ∙ update_where_ext (requeue_job now) (chosen_job snapshot_id kinds)
              (waits snapshot_id kinds) db.queue.jobs
              (All-each _ db.queue.jobs (chosen_job_lem snapshot_id kinds));
    }
