-- ===== src/Queue/Invariant.antt =====
-- What holds of the queue's tables between two transactions.
pub mod Leases
pub mod Enqueue
pub mod Complete
pub mod Effects
pub mod Granted
pub mod Claim
use axit_project.Prelude.{
  ℕ, ◌≤◌, ◌≡◌, Bool, true, false, ◌&&◌, ◌||◌, List, Option, none, some, ◌==◌, ltb, All, String,
  string_eq, nat_eq,
}
use axit_project.Database.{count_by}
use axit_project.Domain.Models.{
  JobState, pending, running, succeeded, failed_retryable, failed_terminal, job_state_eq,
}
use axit_project.Queue.{Job, Attempt, JobResult, Tables}
use axit_project.Queue.Claim.{is_open}

abbrev pub has_token : Option ℕ → ℕ → Bool
has_token none token = false
has_token (some held) token = held == token

abbrev pub open_of : ℕ → Attempt → Bool
open_of id a = a.job_id == id && is_open a

-- An open attempt under the generation and the token of the job's row.
abbrev pub current_of : Job → Attempt → Bool
current_of j a =
    a.job_id == j.id
    && a.lease_generation == j.lease_generation
    && has_token j.lease_token a.lease_token
    && is_open a

abbrev pub later_of : Job → Attempt → Bool
later_of j a = a.job_id == j.id && ltb j.lease_generation a.lease_generation

abbrev pub result_of : ℕ → JobResult → Bool
result_of id r = r.job_id == id

abbrev pub one_if : Bool → ℕ
one_if true = 1
one_if false = 0

abbrev pub is_some {ℓ} : {A : Type ℓ} → Option A → Bool
is_some none = false
is_some (some _) = true

abbrev pub is_failed : JobState → Bool
is_failed failed_retryable = true
is_failed failed_terminal = true
is_failed _ = false

-- One job against the other tables. `lease_shape` and `error_shape` are the constraints
-- `jobs_running_lease_shape` and `jobs_failure_requires_error_code` of the migration.
pub record IsConsistent (attempts : List Attempt) (results : List JobResult) (j : Job)
    : Type 0 where
  pub token_shape : is_some j.lease_token ≡ (j.state == running)
  pub owner_shape : is_some j.lease_owner ≡ (j.state == running)
  pub until_shape : is_some j.lease_until ≡ (j.state == running)
  pub error_shape : is_some j.error_code ≡ is_failed j.state
  pub one_open : count_by (open_of j.id) attempts ≡ one_if (j.state == running)
  pub one_current : count_by (current_of j) attempts ≡ one_if (j.state == running)
  pub none_later : count_by (later_of j) attempts ≡ 0
  pub one_result : count_by (result_of j.id) results ≡ one_if (j.state == succeeded)

abbrev pub has_id : ℕ → Job → Bool
has_id id j = j.id == id

abbrev pub has_key : String → Job → Bool
has_key key j = j.logical_key == key

abbrev pub for_job : ℕ → Attempt → Bool
for_job id a = a.job_id == id

pub record IsWellFormed (db : Tables) : Type 0 where
  pub one_row : (id : ℕ) → count_by (has_id id) db.jobs ≤ 1
  pub one_key : (key : String) → count_by (has_key key) db.jobs ≤ 1
  pub attempts_known :
      (id : ℕ) → count_by (has_id id) db.jobs ≡ 0 → count_by (for_job id) db.job_attempts ≡ 0
  pub results_known :
      (id : ℕ) → count_by (has_id id) db.jobs ≡ 0 → count_by (result_of id) db.job_results ≡ 0
  pub consistent : All (IsConsistent db.job_attempts db.job_results) db.jobs
