-- ===== src/Queue/Traces.antt =====
-- The operations of the queue in any order, by any workers.
use axit_project.Prelude.{ℕ, List, String, Option, ℤ, Bool}
use axit_project.Json.{Fields, Chars}
use axit_project.Database.{Exec}
use axit_project.Domain.Models.{JobState}
use axit_project.Queue.{Tables, ClaimedJob}
use axit_project.Queue.Enqueue.{enqueue}
use axit_project.Queue.Claim.{ClaimTimes, claim_next}
use axit_project.Queue.Complete.{heartbeat, complete_with_effects, requeue_retryable}
use axit_project.Queue.Invariant.{IsWellFormed}
use axit_project.Queue.Invariant.Enqueue.{enqueue-IsWellFormed}
use axit_project.Queue.Invariant.Claim.{claim_next-IsWellFormed}
use axit_project.Queue.Invariant.Leases.{heartbeat-IsWellFormed, requeue_retryable-IsWellFormed}
use axit_project.Queue.Invariant.Effects.{InsertsOnly, complete_with_effects-IsWellFormed}

-- The tables after any calls, each with any arguments, that returned or raised.
pub data Reaches (sha256 : Chars → String) (start : Tables) : Tables → Type 0 where
  initially : Reaches sha256 start start
  enqueued :
      {db : Tables} (job_id now : ℕ) (key kind : String) (payload : Fields) (snapshot : Option ℕ)
      → Reaches sha256 start db
      → Reaches sha256 start (enqueue job_id now key kind payload snapshot db).1
  claimed :
      {db : Tables} (times : ClaimTimes) (locked : ℕ → Bool) (token attempt_id : ℕ) (owner : String)
      (seconds : ℤ) (kinds : Option (List String))
      → Reaches sha256 start db
      → Reaches sha256 start (claim_next times locked token attempt_id owner seconds kinds db).1
  extended :
      {db : Tables} (worker : ClaimedJob) (seconds : ℤ) (now : ℕ)
      → Reaches sha256 start db
      → Reaches sha256 start (heartbeat worker seconds now db).1
  completed :
      {db : Tables} (worker : ClaimedJob) (target : JobState) (result : Fields)
      (code : Option String) (effect : Exec Tables (Unit {0})) (result_id started now : ℕ)
      → InsertsOnly effect
      → Reaches sha256 start db
      → Reaches sha256 start
          (complete_with_effects sha256 worker target result code effect result_id started now db).1
  retried :
      {db : Tables} (job_id : ℕ) (expected : ℤ) (now : ℕ)
      → Reaches sha256 start db
      → Reaches sha256 start (requeue_retryable job_id expected now db).1

-- However the operations of the queue are called and interleaved from well-formed tables, with
-- completions whose effects write nothing but new pending jobs, the tables stay well-formed: no two
-- jobs share an identifier or a logical key, and a job has a lease exactly while it runs, one open
-- attempt exactly then, under that lease, and a result exactly when it succeeded.
pub Reaches-IsWellFormed :
    (sha256 : Chars → String) (start db : Tables)
    → IsWellFormed start
    → Reaches sha256 start db
    → IsWellFormed db
Reaches-IsWellFormed sha256 start _ h initially = h
Reaches-IsWellFormed sha256 start _ h (enqueued {db} job_id now key kind payload snapshot before) =
    enqueue-IsWellFormed job_id now key kind payload snapshot db
      (Reaches-IsWellFormed sha256 start db h before)
Reaches-IsWellFormed sha256 start _ h
      (claimed {db} times locked token attempt_id owner seconds kinds before) =
    claim_next-IsWellFormed times locked token attempt_id owner seconds kinds db
      (Reaches-IsWellFormed sha256 start db h before)
Reaches-IsWellFormed sha256 start _ h (extended {db} worker seconds now before) =
    heartbeat-IsWellFormed worker seconds now db (Reaches-IsWellFormed sha256 start db h before)
Reaches-IsWellFormed sha256 start _ h
      (completed {db} worker target result code effect result_id started now only before) =
    complete_with_effects-IsWellFormed sha256 worker target result code effect result_id started now
      db only (Reaches-IsWellFormed sha256 start db h before)
Reaches-IsWellFormed sha256 start _ h (retried {db} job_id expected now before) =
    requeue_retryable-IsWellFormed job_id expected now db
      (Reaches-IsWellFormed sha256 start db h before)
