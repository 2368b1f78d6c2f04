-- ===== src/Queue.antt =====
-- apps/api/app/queue_repository.py over the tables `jobs`, `job_attempts` and `job_results` of
-- apps/api/alembic/versions/0001_durable_core.py. A UUID is a number. Times are microseconds.
mod Examples
pub mod Checks
pub mod Enqueue
pub mod Claim
pub mod Complete
pub mod Invariant
pub mod Atomic
pub mod Traces
pub mod Granting
pub mod Changed
pub mod Completed
use axit_project.Prelude.{ℕ, List, String, Option}
use axit_project.Json.{Value, Fields}
use axit_project.Domain.Models.{JobState}

pub record Job : Type 0 where
  pub id : ℕ
  pub logical_key : String
  pub kind : String
  pub snapshot_id : Option ℕ
  pub payload_json : Value
  pub state : JobState
  pub attempts : ℕ
  pub lease_generation : ℕ
  pub lease_token : Option ℕ
  pub lease_owner : Option String
  pub lease_until : Option ℕ
  pub heartbeat_at : Option ℕ
  pub error_code : Option String
  pub created_at : ℕ
  pub updated_at : ℕ

pub data AttemptStatus : Type 0 where
  attempt_running attempt_succeeded attempt_failed attempt_expired attempt_stale : AttemptStatus

pub record Attempt : Type 0 where
  pub id : ℕ
  pub job_id : ℕ
  pub lease_generation : ℕ
  pub lease_token : ℕ
  pub owner : String
  pub started_at : ℕ
  pub ended_at : Option ℕ
  pub status : AttemptStatus
  pub error_code : Option String

pub record JobResult : Type 0 where
  pub id : ℕ
  pub job_id : ℕ
  pub result_json : Fields
  pub result_hash : String
  pub created_at : ℕ

-- The queue's tables, and the snapshots that a job may refer to.
pub record Tables : Type 0 where
  pub jobs : List Job
  pub job_attempts : List Attempt
  pub job_results : List JobResult
  pub snapshots : List ℕ

pub record DurableJob : Type 0 where
  pub id : ℕ
  pub logical_key : String
  pub kind : String
  pub state : JobState
  pub lease_generation : ℕ

pub record ClaimedJob : Type 0 where
  pub id : ℕ
  pub logical_key : String
  pub kind : String
  pub payload : Fields
  pub owner : String
  pub lease_generation : ℕ
  pub lease_token : ℕ
  pub attempt_id : ℕ
