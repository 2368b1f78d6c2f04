-- ===== src/Session.antt =====
-- The tables that apps/api/app/session_service.py and session_retry_service.py read and write
-- (apps/api/alembic/versions/0001_durable_core.py and 0012_notification_audit_settings.py), with the
-- columns that those services use. A UUID is a number, in PostgreSQL's order. A column of a fixed set
-- of texts is an enum, and the counters, INTEGER there, are unbounded here.
pub mod Rows
mod Examples
pub mod Writes
pub mod Events
pub mod Close
pub mod Reopen
pub mod Retry
pub mod Quiet
pub mod Steps
pub mod Closing
pub mod Closed
pub mod Requeue
pub mod Rewritten
pub mod Retrying
pub mod Sound
use axit_project.Prelude.{
  ℕ, Bool, true, false, ◌&&◌, List, String, Option, none, some, ◌==◌, any_by, not, if◌then◌else◌,
  Result, ok, err, nat_eq,
}
use axit_project.Errors.{Error}
use axit_project.Database.{Exec, lift, gets, count_by, update_where, find_by, on_part, ◌>>=◌, ◌>>◌}
use axit_project.Domain.Models.{
  TalkSessionState, draft, open_session, closed, processing, ready, needs_attention,
  RevisionProcessingState, GenerationKind, GenerationRunState,
}
use axit_project.Queue.{Tables}
use axit_project.Activity.Ledger.{AuditEvent}

pub record Membership : Type 0 where
  pub room_id : ℕ
  pub user_id : ℕ
  pub left_at : Option ℕ

pub record TalkSession : Type 0 where
  pub id : ℕ
  pub room_id : ℕ
  pub host_id : ℕ
  pub topic : String
  pub state : TalkSessionState
  pub generation_epoch : ℕ
  pub state_version : ℕ
  pub retry_ordinal : ℕ
  pub closed_at : Option ℕ

pub record Submission : Type 0 where
  pub id : ℕ
  pub session_id : ℕ
  pub deleted_at : Option ℕ

pub record SourceRevision : Type 0 where
  pub id : ℕ
  pub submission_id : ℕ
  pub processing_state : RevisionProcessingState
  pub approved_extraction_run_id : Option ℕ
  pub is_current : Bool

pub data ExtractionStatus : Type 0 where
  extraction_queued extraction_running extraction_succeeded extraction_failed : ExtractionStatus

pub record ExtractionRun : Type 0 where
  pub id : ℕ
  pub source_revision_id : ℕ
  pub status : ExtractionStatus
  pub anchor_schema_version : String

pub record SnapshotExclusion : Type 0 where
  pub id : ℕ
  pub session_id : ℕ
  pub source_revision_id : ℕ
  pub reason : String
  pub actor_id : ℕ

pub record GenerationSnapshot : Type 0 where
  pub id : ℕ
  pub session_id : ℕ
  pub generation_epoch : ℕ
  pub created_by : ℕ
  pub topic_copy : String
  pub pipeline_version : String
  pub anchor_schema_version : String

pub record SnapshotRevision : Type 0 where
  pub snapshot_id : ℕ
  pub source_revision_id : ℕ
  pub extraction_run_id : ℕ

pub record GenerationRun : Type 0 where
  pub id : ℕ
  pub snapshot_id : ℕ
  pub kind : GenerationKind
  pub provider : String
  pub model : String
  pub prompt_version : String
  pub pipeline_version : String
  pub state : GenerationRunState
  pub error_code : Option String
  pub completed_at : Option ℕ

-- `queue` holds the jobs; its `snapshots` are the identifiers of `generation_snapshots`.
pub record Store : Type 0 where
  pub room_memberships : List Membership
  pub talk_sessions : List TalkSession
  pub submissions : List Submission
  pub source_revisions : List SourceRevision
  pub extraction_runs : List ExtractionRun
  pub snapshot_exclusions : List SnapshotExclusion
  pub generation_snapshots : List GenerationSnapshot
  pub snapshot_revisions : List SnapshotRevision
  pub generation_runs : List GenerationRun
  pub queue : Tables
  pub audit_events : List AuditEvent

-- The texts of `TalkSessionState`.
abbrev pub session_state_value : TalkSessionState → String
session_state_value draft = "draft"
session_state_value open_session = "open"
session_state_value closed = "closed"
session_state_value processing = "processing"
session_state_value ready = "ready"
session_state_value needs_attention = "needs_attention"

abbrev pub is_null {ℓ} : {A : Type ℓ} → Option A → Bool
is_null none = true
is_null (some _) = false

-- A membership of the room that the user has not left.
abbrev pub is_member : List Membership → ℕ → ℕ → Bool
is_member memberships room_id user_id =
    any_by (λ (m : Membership). m.room_id == room_id && m.user_id == user_id && is_null m.left_at)
      memberships

abbrev pub has_session_id : ℕ → TalkSession → Bool
has_session_id id s = s.id == id

-- SELECT … FROM talk_sessions JOIN room_memberships … FOR UPDATE, and the test on the host. The
-- services give these two refusals classes of their own.
unfoldable pub hosted_session : Error → Error → ℕ → ℕ → Exec Store TalkSession
hosted_session no_access no_host actor_id session_id db =
    elim (find_by
      (λ (s : TalkSession). s.id == session_id && is_member db.room_memberships s.room_id actor_id)
      db.talk_sessions) [
        | none ↦ (err no_access, db)
        | some s ↦ if s.host_id == actor_id then (ok s, db) else (err no_host, db)
      ]

-- UPDATE talk_sessions … RETURNING …, which must write one row
unfoldable pub update_session :
    (TalkSession → Bool) → (TalkSession → TalkSession) → Error → Exec Store TalkSession
update_session test change error db =
    if count_by test db.talk_sessions == 1
    then elim (find_by test db.talk_sessions) [
      | none ↦ (err error, db)
      | some s ↦
          (ok (change s), record db { talk_sessions = update_where test change db.talk_sessions })
    ]
    else (err error, db)

-- Programs on the queue's tables and on the ledger.
abbrev pub on_queue : {A : Type 0} → Exec Tables A → Exec Store A
on_queue m = on_part (λ (db : Store). db.queue) (λ db queue. record db { queue = queue }) m

abbrev pub on_ledger : {A : Type 0} → Exec (List AuditEvent) A → Exec Store A
on_ledger m =
    on_part (λ (db : Store). db.audit_events) (λ db events. record db { audit_events = events }) m
