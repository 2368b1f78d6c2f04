-- ===== src/Queue/Granting.antt =====
-- `PostgresJobQueue.complete` for the worker that holds the lease.
use axit_project.Prelude.{
  ℕ, ◌≡◌, ◌≤◌, refl, sym, ap, ◌∙◌, inl, inr, Bool, true, false, ◌||◌, List, [], ◌∷◌, String, none,
  ◌==◌, All, arith, any_by, Bool-cases, ok, string_eq, nat_eq,
}
use axit_project.Json.{Fields, Chars, canonical_json_bytes, nul_in_fields}
use axit_project.Database.{count_by}
use axit_project.Database.Rows.{count_by_ext, count_by_mono}
use axit_project.Domain.Models.{succeeded, job_state_eq}
use axit_project.Queue.{Job, Attempt, JobResult, Tables, ClaimedJob}
use axit_project.Queue.Checks.{check_completion}
use axit_project.Queue.Complete.{
  held_by, attempt_of, update_one_job, store_result, close_attempt, insert_result,
  complete_with_effects, complete,
}
use axit_project.Queue.Invariant.{IsConsistent, IsWellFormed, has_id, current_of, result_of}

-- A row that a test finds, with what holds of every row.
found_row :
    (P : Job → Type 0) (q : Job → Bool) (jobs : List Job)
    → All P jobs
    → count_by q jobs ≡ 1
    → (j : Job) × P j × (q j ≡ true)
unfolding count_by
found_row P q [] h one = absurd (ground arith)
found_row P q (j ∷ rest) h one = elim (Bool-cases (q j)) [
  | inl found ↦ (j, h.0, found)
  | inr other ↦ found_row P q rest h.1 (ground arith)
]

held_id :
    (claimed : ClaimedJob) (now : ℕ) (j : Job) → held_by claimed now j ≡ true → j.id ≡ claimed.id
held_id claimed now j held = ground arith

held_attempt :
    (claimed : ClaimedJob) (now : ℕ) (attempts : List Attempt) (results : List JobResult) (j : Job)
    → IsConsistent attempts results j
    → held_by claimed now j ≡ true
    → (count_by (attempt_of claimed) attempts ≡ 1) × (count_by (result_of claimed.id) results ≡ 0)
held_attempt claimed now attempts results j c held = (
  count_by_ext (attempt_of claimed) (current_of j) attempts (λ a. ground arith)
      ∙ c.one_current
      ∙ ground arith,
  ap (λ i. count_by (result_of i) results) (sym (held_id claimed now j held))
      ∙ c.one_result
      ∙ ground arith,
)

no_clash :
    (result_id job_id : ℕ) (results : List JobResult)
    → any_by (λ (r : JobResult). r.id == result_id) results ≡ false
    → count_by (result_of job_id) results ≡ 0
    → any_by (λ (r : JobResult). r.id == result_id || r.job_id == job_id) results ≡ false
unfolding count_by
no_clash result_id job_id [] h none_yet = refl
no_clash result_id job_id (r ∷ rest) h none_yet = ground (arith, no_clash result_id job_id rest)

-- In well-formed tables, a completion to success without further effects returns when the worker
-- holds the lease in time, its result can be encoded and holds no NUL, which `jsonb` refuses, and
-- its result's new identifier is free: it finds its attempt open and no earlier result.
pub complete-IsGranted :
    (sha256 : Chars → String) (claimed : ClaimedJob) (result : Fields) (result_id started now : ℕ)
    (encoded : Chars) (db : Tables)
    → IsWellFormed db
    → 1 ≤ count_by (held_by claimed now) db.jobs
    → canonical_json_bytes result ≡ ok encoded
    → nul_in_fields result ≡ false
    → any_by (λ (r : JobResult). r.id == result_id) db.job_results ≡ false
    → (complete sha256 claimed succeeded result none result_id started now db).0 ≡ ok tt
unfolding complete complete_with_effects update_one_job store_result close_attempt insert_result
    check_completion
complete-IsGranted sha256 claimed result result_id started now encoded db h there encodes storable
      free =
    let narrow =
      count_by_mono (held_by claimed now) (has_id claimed.id) db.jobs (λ j e. ground arith) in
    let one : count_by (held_by claimed now) db.jobs ≡ 1 =
      omega (arith, there, narrow, h.one_row claimed.id) in
    let (j, c, held) = found_row _ (held_by claimed now) db.jobs h.consistent one in
    let (one_attempt, none_yet) =
      held_attempt claimed now db.job_attempts db.job_results j c held in
    let clear = no_clash result_id claimed.id db.job_results free none_yet in
    rw (one, encodes, storable, clear, one_attempt) refl
