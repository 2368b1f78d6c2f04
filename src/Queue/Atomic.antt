-- ===== src/Queue/Atomic.antt =====
-- What a refused operation of the queue leaves behind, and when one is refused.
use axit_project.Prelude.{
  ℕ, ◌≡◌, refl, false, ◌&&◌, List, [], ◌∷◌, String, Option, ◌==◌, All, arith, ok, err, string_eq,
  nat_eq, ℤ,
}
use axit_project.Errors.{Error, stale_lease_error}
use axit_project.Json.{Fields, Chars}
use axit_project.Database.{Exec, count_by, checked_undone}
use axit_project.Domain.Models.{JobState, job_state_eq}
use axit_project.Queue.{Job, Tables, ClaimedJob}
use axit_project.Queue.Checks.{check_completion, require_lease_seconds}
use axit_project.Queue.Complete.{held_by, heartbeat, update_one_job, complete_with_effects}

-- A completion that raises, for any reason and with any effect, leaves the tables as they were.
pub complete_with_effects-atomic :
    (sha256 : Chars → String) (claimed : ClaimedJob) (target : JobState) (result : Fields)
    (code : Option String) (effect : Exec Tables (Unit {0})) (result_id started now : ℕ)
    (db t : Tables) (e : Error)
    → complete_with_effects sha256 claimed target result code effect result_id started now db
      ≡ (err e, t)
    → t ≡ db
unfolding complete_with_effects
complete_with_effects-atomic sha256 claimed target result code effect result_id started now db t e
      h =
    checked_undone (check_completion target code) _ db e t h

-- The row that a worker claimed was claimed again, or is not there.
abbrev pub IsSuperseded : ClaimedJob → Job → Type 0
IsSuperseded claimed j =
    (j.id == claimed.id && j.lease_generation == claimed.lease_generation) ≡ false

none_held :
    (claimed : ClaimedJob) (now : ℕ) (jobs : List Job)
    → All (IsSuperseded claimed) jobs
    → count_by (held_by claimed now) jobs ≡ 0
unfolding count_by
none_held claimed now [] h = refl
none_held claimed now (j ∷ rest) h = ground (arith, none_held claimed now rest h.1, h.0)

-- A worker whose generation no row has any more, and whose arguments are accepted, gets a stale
-- lease for its completion, whatever its effect, and for its heartbeat; nothing is written.
pub superseded_is_stale :
    (sha256 : Chars → String) (claimed : ClaimedJob) (target : JobState) (result : Fields)
    (code : Option String) (effect : Exec Tables (Unit {0})) (result_id started now : ℕ)
    (lease_seconds : ℤ) (db : Tables)
    → All (IsSuperseded claimed) db.jobs
    → check_completion target code ≡ ok tt
    → require_lease_seconds lease_seconds ≡ ok tt
    → (complete_with_effects sha256 claimed target result code effect result_id started now db
        ≡ (err stale_lease_error, db))
      × (heartbeat claimed lease_seconds now db ≡ (err stale_lease_error, db))
unfolding complete_with_effects heartbeat update_one_job
superseded_is_stale sha256 claimed target result code effect result_id started now lease_seconds db
      h accepted seconds =
    (
      rw (accepted, none_held claimed now db.jobs h) refl,
      rw (seconds, none_held claimed now db.jobs h) refl,
    )
