-- ===== src/Session/Events.antt =====
-- The events that the session services record.
use axit_project.Prelude.{
  ℕ, Bool, false, String, Option, none, some, ◌==◌, if◌then◌else◌, string_eq, nat_eq,
}
use axit_project.Database.{Exec, lift, ◌>>=◌}
use axit_project.Domain.Models.{session_state_eq}
use axit_project.Activity.Keys.{Identity, build_event_key}
use axit_project.Activity.Metadata.{Entries}
use axit_project.Activity.Ledger.{AuditEvent, Activity, Drawn, session_scope, record_activity}
use axit_project.Session.{TalkSession, Store, on_ledger}

-- `str` of a UUID and of a number, `str.lower` and the constraints of the ledger are parameters.
module _ (uuid_text decimal_text : ℕ → String) (lower : String → String)
    (satisfies : AuditEvent → Bool) where
  -- The identity of a session's event.
  abbrev pub session_identity : ℕ → ℕ → Identity
  session_identity session_id state_version name =
      if name == "session_id"
      then some (uuid_text session_id)
      else if name == "state_version"
      then some (decimal_text state_version)
      else none

  abbrev pub session_activity : String → String → ℕ → TalkSession → Activity
  session_activity event_key event_type actor_id session = record {
    event_key = event_key;
    event_type = event_type;
    actor_id = some actor_id;
    scope_type = session_scope;
    audience_user_id = none;
    room_id = some session.room_id;
    session_id = some session.id;
    entity_type = "session";
    entity_id = session.id;
  }

  -- `self._activities.record(cursor, event_key=build_event_key(…), …)` for a session
  unfoldable pub record_session :
      Drawn → String → Identity → ℕ → TalkSession → Entries → Exec Store (Option AuditEvent)
  record_session drawn event_type identity actor_id session metadata = do
    event_key ← lift (build_event_key event_type identity false)
    on_ledger (
        record_activity satisfies lower drawn
          (session_activity event_key event_type actor_id session) metadata)
