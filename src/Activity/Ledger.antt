-- ===== src/Activity/Ledger.antt =====
-- `ActivityRepository.append` of apps/api/app/activity_repository.py, and `ActivityService._append`
-- and `record` of apps/api/app/activity_service.py without notification effects, over the table
-- `audit_events` of the migration 0012. Its identifiers and ledger sequence, which the database and
-- `uuid4` draw, are arguments. The process-local counters of `_observe_activity` are left out.
use axit_project.Prelude.{
  ℕ, Bool, ◌||◌, List, [], ◌∷◌, ◌++◌, String, Option, none, some, ◌==◌, any_by, contains,
  if◌then◌else◌, ok, err, require, string_eq, nat_eq,
}
use axit_project.Errors.{value_error, integrity_error}
use axit_project.Json.{Fields}
use axit_project.Database.{Exec, lift, ◌>>=◌, ◌>>◌}
use axit_project.Activity.{supported_audit_event_types}
use axit_project.Activity.Metadata.{Entries, safe_audit_metadata}

pub data ActivityScope : Type 0 where
  personal_scope room_scope session_scope : ActivityScope

pub record AuditEvent : Type 0 where
  pub id : ℕ
  pub ledger_sequence : ℕ
  pub event_key : String
  pub event_type : String
  pub actor_id : Option ℕ
  pub scope_type : ActivityScope
  pub audience_user_id : Option ℕ
  pub room_id : Option ℕ
  pub session_id : Option ℕ
  pub entity_type : String
  pub entity_id : ℕ
  pub metadata_json : Fields

-- What a caller of `record` passes, besides the metadata.
pub record Activity : Type 0 where
  pub event_key : String
  pub event_type : String
  pub actor_id : Option ℕ
  pub scope_type : ActivityScope
  pub audience_user_id : Option ℕ
  pub room_id : Option ℕ
  pub session_id : Option ℕ
  pub entity_type : String
  pub entity_id : ℕ

pub record Drawn : Type 0 where
  pub id : ℕ
  pub ledger_sequence : ℕ

abbrev pub event_row : Drawn → Activity → Fields → AuditEvent
event_row drawn activity metadata = record {
  id = drawn.id;
  ledger_sequence = drawn.ledger_sequence;
  event_key = activity.event_key;
  event_type = activity.event_type;
  actor_id = activity.actor_id;
  scope_type = activity.scope_type;
  audience_user_id = activity.audience_user_id;
  room_id = activity.room_id;
  session_id = activity.session_id;
  entity_type = activity.entity_type;
  entity_id = activity.entity_id;
  metadata_json = metadata;
}

-- `satisfies` stands for the CHECK and foreign key constraints of the table, and its trigger.
module _ (satisfies : AuditEvent → Bool) where
  -- INSERT INTO audit_events … ON CONFLICT(event_key) DO NOTHING RETURNING …
  unfoldable pub append : AuditEvent → Exec (List AuditEvent) (Option AuditEvent)
  append row events =
      if any_by (λ (e : AuditEvent). e.event_key == row.event_key) events
      then (ok none, events)
      else if any_by
          (λ (e : AuditEvent). e.id == row.id || e.ledger_sequence == row.ledger_sequence) events
      then (err integrity_error, events)
      else if satisfies row
      then (ok (some row), events ++ row ∷ [])
      else (err integrity_error, events)

  -- The row that was inserted, or none when the event key was already there.
  unfoldable pub record_activity :
      (String → String) → Drawn → Activity → Entries → Exec (List AuditEvent) (Option AuditEvent)
  unfolding append
  record_activity lower drawn activity metadata = do
    lift (require (contains supported_audit_event_types activity.event_type) value_error)
    safe ← lift (safe_audit_metadata lower metadata)
    append (event_row drawn activity safe)
