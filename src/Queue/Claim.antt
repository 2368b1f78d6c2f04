-- ===== src/Queue/Claim.antt =====
-- `PostgresJobQueue.claim_next`.
use axit_project.Prelude.{
  ℕ, ◌+◌, ◌*◌, Bool, true, false, ◌&&◌, ◌||◌, not, List, [], ◌∷◌, ◌++◌, String, Option, none, some,
  ◌==◌, contains, filter_by, any_by, ltb, leb, ℤ, pos_part, if◌then◌else◌, ok, err, require,
  string_eq, nat_eq, int_eq,
}
use axit_project.Errors.{integrity_error, overflow_error}
use axit_project.Database.{Exec, pure, lift, modify, transaction, update_where, ◌>>=◌, ◌>>◌}
use axit_project.Domain.Models.{pending, running, job_state_eq}
use axit_project.Queue.{
  Job, Attempt, AttemptStatus, attempt_running, attempt_succeeded, attempt_failed, attempt_expired,
  Tables, ClaimedJob,
}
use axit_project.Queue.Checks.{
  require_owner, require_lease_seconds, normalize_claim_kinds, claimed_job,
}

-- PostgreSQL's INTEGER
abbrev pub max_integer : ℕ
max_integer = 2147483647

-- `lease_until <= clock_timestamp()`, which is not true of a missing value
abbrev pub expired_at : ℕ → Option ℕ → Bool
expired_at now none = false
expired_at now (some until) = leb until now

-- `lease_until > clock_timestamp()`
abbrev pub valid_at : ℕ → Option ℕ → Bool
valid_at now none = false
valid_at now (some until) = ltb now until

abbrev pub kind_selected : Option (List String) → String → Bool
kind_selected none kind = true
kind_selected (some kinds) kind = contains kinds kind

-- The WHERE clause of a claim; a row that another transaction has locked is skipped.
abbrev pub claimable : ℕ → Option (List String) → (ℕ → Bool) → Job → Bool
claimable now kinds locked j =
    (j.state == pending || (j.state == running && expired_at now j.lease_until))
    && kind_selected kinds j.kind
    && not (locked j.id)

-- ORDER BY created_at, id
abbrev pub before : Job → Job → Bool
before a b = ltb a.created_at b.created_at || (a.created_at == b.created_at && ltb a.id b.id)

-- … LIMIT 1
unfoldable pub first_in_order : List Job → Option Job
first_in_order [] = none
first_in_order (j ∷ rest) = elim (first_in_order rest) [
  | none ↦ some j
  | some k ↦ some (if before k j then k else j)
]

-- When the transaction began, and the readings of its SELECT, its first and its second UPDATE.
pub record ClaimTimes : Type 0 where
  pub started : ℕ
  pub selected : ℕ
  pub ended : ℕ
  pub granted : ℕ

abbrev pub is_open : Attempt → Bool
is_open a = elim a.status [
  | attempt_running ↦ elim a.ended_at [ none ↦ true | some _ ↦ false ]
  | attempt_succeeded ↦ false
  | attempt_failed ↦ false
  | attempt_expired ↦ false
  | AttemptStatus.attempt_stale ↦ false
]

-- UPDATE job_attempts SET … status = 'expired', for the open attempt of a generation
abbrev pub expire_attempt : ℕ → ℕ → ℕ → Tables → Tables
expire_attempt job_id generation now db = record db {
  job_attempts =
      update_where
        (λ (a : Attempt). a.job_id == job_id && a.lease_generation == generation && is_open a)
        (λ a. record a {
          ended_at = some now;
          status = attempt_expired;
          error_code = some "lease_expired";
        })
        db.job_attempts;
}

abbrev pub grant : ℕ → ℕ → String → ℕ → ℤ → Job → Job
grant next_generation lease_token owner now lease_seconds j = record j {
  state = running;
  attempts = j.attempts + 1;
  lease_generation = next_generation;
  lease_token = some lease_token;
  lease_owner = some owner;
  lease_until = some (now + pos_part lease_seconds * 1000000);
  heartbeat_at = some now;
  error_code = none;
  updated_at = now;
}

-- INSERT INTO job_attempts, under its primary key and UNIQUE (job_id, lease_generation)
unfoldable pub insert_attempt : Attempt → Exec Tables (Unit {0})
insert_attempt row db =
    if any_by
      (λ (a : Attempt).
        a.id == row.id || (a.job_id == row.job_id && a.lease_generation == row.lease_generation))
      db.job_attempts
    then (err integrity_error, db)
    else (ok tt, record db { job_attempts = db.job_attempts ++ row ∷ [] })

abbrev pub new_attempt : ℕ → Job → ℕ → ℕ → String → ℕ → Attempt
new_attempt attempt_id row next_generation lease_token owner started = record {
  id = attempt_id;
  job_id = row.id;
  lease_generation = next_generation;
  lease_token = lease_token;
  owner = owner;
  started_at = started;
  ended_at = none;
  status = attempt_running;
  error_code = none;
}

-- The writes of a claim on the row that it selected.
unfoldable pub claim_row : ClaimTimes → ℕ → ℕ → String → ℤ → Job → Exec Tables (Option Job)
unfolding insert_attempt
claim_row times lease_token attempt_id owner lease_seconds row = do
  let next_generation = row.lease_generation + 1
  if row.state == running
      then modify (expire_attempt row.id row.lease_generation times.ended)
      else pure tt
  lift (
      require (leb (row.attempts + 1) max_integer && leb next_generation max_integer)
        overflow_error)
  modify (λ (db : Tables). record db {
    jobs =
        update_where (λ (j : Job). j.id == row.id)
          (grant next_generation lease_token owner times.granted lease_seconds) db.jobs;
  })
  insert_attempt (new_attempt attempt_id row next_generation lease_token owner times.started)
  pure (some row)

unfoldable pub claim_selected :
    ClaimTimes → ℕ → ℕ → String → ℤ → Option Job → Exec Tables (Option Job)
unfolding claim_row
claim_selected times lease_token attempt_id owner lease_seconds none = pure none
claim_selected times lease_token attempt_id owner lease_seconds (some row) =
    claim_row times lease_token attempt_id owner lease_seconds row

-- An empty collection of kinds returns before any row is read.
abbrev pub selects_nothing : Option (List String) → Bool
selects_nothing none = false
selects_nothing (some []) = true
selects_nothing (some (_ ∷ _)) = false

unfoldable pub select_and_claim :
    ClaimTimes → (ℕ → Bool) → ℕ → ℕ → String → ℤ → Option (List String) → Exec Tables (Option Job)
unfolding claim_selected
select_and_claim times locked lease_token attempt_id owner lease_seconds kinds db =
    if selects_nothing kinds
    then (ok none, db)
    else claim_selected times lease_token attempt_id owner lease_seconds
        (first_in_order (filter_by (claimable times.selected kinds locked) db.jobs)) db

unfoldable pub claim_next :
    ClaimTimes
    → (ℕ → Bool)
    → ℕ
    → ℕ
    → String
    → ℤ
    → Option (List String)
    → Exec Tables (Option ClaimedJob)
unfolding select_and_claim
claim_next times locked lease_token attempt_id owner lease_seconds kinds = do
  lift (require_owner owner)
  lift (require_lease_seconds lease_seconds)
  claim_kinds ← lift (normalize_claim_kinds kinds)
  row ←
      transaction
        (select_and_claim times locked lease_token attempt_id owner lease_seconds claim_kinds)
  lift (claimed_job lease_token attempt_id owner row)
