-- ===== src/Session/Reopen.antt =====
-- `SessionCloseService.reopen` of apps/api/app/session_service.py.
use axit_project.Prelude.{
  ℕ, ◌+◌, Bool, ◌||◌, String, Option, none, some, ◌==◌, if◌then◌else◌, err, nat_eq, pos,
}
use axit_project.Errors.{session_state_error, session_access_error, session_host_required_error}
use axit_project.Database.{Exec, pure, lift, transaction, ◌>>=◌, ◌>>◌}
use axit_project.Domain.Models.{
  TalkSessionState, open_session, ready, needs_attention, session_state_eq,
}
use axit_project.Activity.Metadata.{no_entry, entry, words, whole}
use axit_project.Activity.Ledger.{AuditEvent, Drawn}
use axit_project.Session.{TalkSession, Store, hosted_session, update_session, session_state_value}
use axit_project.Session.Writes.{in_state}
use axit_project.Session.Events.{session_identity, record_session}

abbrev pub reopened : TalkSession → TalkSession
reopened s = record s {
  state = open_session;
  closed_at = none;
  state_version = s.state_version + 1;
}

module _ (uuid_text decimal_text : ℕ → String) (lower : String → String)
    (satisfies : AuditEvent → Bool) where
  unfoldable pub record_reopened : Drawn → ℕ → TalkSession → ℕ → Exec Store (Option AuditEvent)
  record_reopened drawn actor_id session version =
      record_session uuid_text decimal_text lower satisfies drawn "session.reopened"
        (session_identity uuid_text decimal_text lower satisfies session.id version) actor_id
        session
        (entry (some "previous_state") (words (session_state_value session.state)) (
          entry (some "state") (words "open")
            (entry (some "state_version") (whole (pos version)) no_entry)))

  unfoldable pub reopen_analyzed : Drawn → ℕ → TalkSession → Exec Store TalkSessionState
  reopen_analyzed drawn actor_id session = do
    row ← update_session (in_state session.id session.state) reopened session_state_error
    record_reopened drawn actor_id session row.state_version
    pure open_session

  unfoldable pub reopen_session : Drawn → ℕ → TalkSession → Exec Store TalkSessionState
  unfolding reopen_analyzed
  reopen_session drawn actor_id session =
      if session.state == open_session
      then pure open_session
      else if session.state == ready || session.state == needs_attention
      then reopen_analyzed drawn actor_id session
      else lift (err session_state_error)

  unfoldable pub reopen_hosted : Drawn → ℕ → ℕ → Exec Store TalkSessionState
  unfolding reopen_session
  reopen_hosted drawn session_id actor_id = do
    session ← hosted_session session_access_error session_host_required_error actor_id session_id
    reopen_session drawn actor_id session

  unfoldable pub reopen : Drawn → ℕ → ℕ → Exec Store TalkSessionState
  unfolding reopen_hosted
  reopen drawn session_id actor_id = transaction (reopen_hosted drawn session_id actor_id)
