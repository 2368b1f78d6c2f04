-- ===== src/Session/Closing.antt =====
-- What a close that returned wrote to the sessions, the snapshots and the queue.
use mathlib.Core.Path.{subst}
use axit_project.Prelude.{
  ℕ, ◌+◌, ◌≡◌, sym, ap, ◌∙◌, Bool, [], ◌∷◌, ◌++◌, String, Option, Result, ok, arith, nat_eq,
}
use axit_project.Errors.{Error, session_state_error}
use axit_project.Database.{Exec, count_by, update_where, returned}
use axit_project.Domain.Models.{open_session, closed, summary, research, session_state_eq}
use axit_project.Queue.Invariant.{IsWellFormed}
use axit_project.Activity.Ledger.{AuditEvent}
use axit_project.Session.{TalkSession, Store, update_session}
use axit_project.Session.Rows.{Pinned, insert_snapshot}
use axit_project.Session.Close.{record_closed, record_processing, write_close}
use axit_project.Session.Writes.{
  CloseDraw, ClosedSnapshot, in_state, shut, process, snapshot_row, insert_revisions,
  insert_run_and_job, new_snapshot,
}
use axit_project.Session.Events.{session_identity}
use axit_project.Session.Quiet.{
  Quiet, Quiet-trans, record_session-Quiet, insert_revisions-Quiet, insert_run_and_job-Quiet,
}
use axit_project.Session.Steps.{update_session_ok, insert_snapshot_ok}

-- The sessions, the snapshots and the queue after the writes of a close.
pub record Closes (drawn : CloseDraw) (actor_id : ℕ) (session : TalkSession)
    (pipeline_version : String) (pinned : Pinned) (before after : Store) : Type 0 where
  pub members : after.room_memberships ≡ before.room_memberships
  pub one : count_by (in_state session.id open_session) before.talk_sessions ≡ 1
  pub sessions :
      after.talk_sessions
      ≡ update_where
          (in_state session.id closed)
          (process (session.generation_epoch + 1))
          (update_where (in_state session.id open_session) (shut drawn.now) before.talk_sessions)
  pub snapshots :
      after.generation_snapshots
      ≡ before.generation_snapshots
        ++ snapshot_row drawn actor_id session pipeline_version pinned ∷ []
  pub queue : IsWellFormed before.queue → IsWellFormed after.queue

-- Where a quiet step ended.
pub ends_at :
    {A : Type 0} (m : Exec Store A) (s t : Store) (a : Result Error A)
    → m s ≡ (a, t)
    → Quiet s (m s).1
    → Quiet s t
ends_at m s t a e q = subst (Quiet s) (ap (λ x. x.1) e) q

-- The steps one after another.
composed :
    (drawn : CloseDraw) (actor_id : ℕ) (session : TalkSession) (pipeline_version : String)
    (pinned : Pinned) (db s1 s2 s3 s6 s7 t : Store)
    → count_by (in_state session.id open_session) db.talk_sessions ≡ 1
    → s1 ≡ record db {
      talk_sessions =
          update_where (in_state session.id open_session) (shut drawn.now) db.talk_sessions;
    }
    → Quiet s1 s2
    → s3.generation_snapshots
      ≡ s2.generation_snapshots ++ snapshot_row drawn actor_id session pipeline_version pinned ∷ []
    → s3.room_memberships ≡ s2.room_memberships
    → s3.talk_sessions ≡ s2.talk_sessions
    → (IsWellFormed s2.queue → IsWellFormed s3.queue)
    → Quiet s3 s6
    → s7 ≡ record s6 {
      talk_sessions =
          update_where
            (in_state session.id closed)
            (process (session.generation_epoch + 1))
            s6.talk_sessions;
    }
    → Quiet s7 t
    → Closes drawn actor_id session pipeline_version pinned db t
composed drawn actor_id session pipeline_version pinned db s1 s2 s3 s6 s7 t one u1 q2 g3 m3 t3 w3 q
      u7 q8 =
    record {
      members =
          q8.members
          ∙ ap (λ (s : Store). s.room_memberships) u7
          ∙ q.members
          ∙ m3
          ∙ q2.members
          ∙ ap (λ (s : Store). s.room_memberships) u1;
      one = one;
      sessions =
          q8.sessions
          ∙ ap (λ (s : Store). s.talk_sessions) u7
          ∙ ap (update_where (in_state session.id closed) (process (session.generation_epoch + 1)))
              (q.sessions ∙ t3 ∙ q2.sessions ∙ ap (λ (s : Store). s.talk_sessions) u1);
      snapshots =
          q8.snapshots
          ∙ ap (λ (s : Store). s.generation_snapshots) u7
          ∙ q.snapshots
          ∙ g3
          ∙ ap (λ l. l ++ snapshot_row drawn actor_id session pipeline_version pinned ∷ [])
              (q2.snapshots ∙ ap (λ (s : Store). s.generation_snapshots) u1);
      queue = λ h. q8.queue (
          subst (λ (s : Store). IsWellFormed s.queue) (sym u7)
            (q.queue (w3 (q2.queue (subst (λ (s : Store). IsWellFormed s.queue) (sym u1) h)))));
    }

module _ (uuid_text decimal_text : ℕ → String) (lower : String → String)
    (satisfies : AuditEvent → Bool) (drawn : CloseDraw) (actor_id : ℕ) (session : TalkSession)
    (pipeline_version : String) (pinned : Pinned) where
  abbrev to_closed : Exec Store TalkSession
  to_closed = update_session (in_state session.id open_session) (shut drawn.now) session_state_error

  abbrev to_processing : Exec Store TalkSession
  to_processing =
      update_session (in_state session.id closed) (process (session.generation_epoch + 1))
        session_state_error

  abbrev closed_event : TalkSession → Exec Store (Option AuditEvent)
  closed_event row =
      record_closed uuid_text decimal_text lower satisfies drawn actor_id session row.state_version

  abbrev processing_event : TalkSession → Exec Store (Option AuditEvent)
  processing_event row =
      record_processing uuid_text decimal_text lower satisfies drawn actor_id session
        row.state_version

  abbrev the_snapshot : Exec Store (Unit {0})
  the_snapshot = insert_snapshot (snapshot_row drawn actor_id session pipeline_version pinned)

  events-Quiet :
      (row : TalkSession) (db : Store)
      → Quiet db (closed_event row db).1 × Quiet db (processing_event row db).1
  unfolding record_closed record_processing
  events-Quiet row db = (
    record_session-Quiet uuid_text decimal_text lower satisfies drawn.closed_event "session.closed"
        (session_identity uuid_text decimal_text lower satisfies session.id row.state_version)
        actor_id session _ db,
    record_session-Quiet uuid_text decimal_text lower satisfies drawn.processing_event
        "session.processing"
        (session_identity uuid_text decimal_text lower satisfies session.id row.state_version)
        actor_id session _ db,
  )

  pub write_close_ok :
      (db t : Store) (r : ClosedSnapshot)
      → write_close uuid_text decimal_text lower satisfies drawn actor_id session pipeline_version
          pinned db
        ≡ (ok r, t)
      → Closes drawn actor_id session pipeline_version pinned db t
        × (r ≡ new_snapshot drawn session)
  unfolding write_close
  write_close_ok db t r h =
      let (row, s1, e1, h1) = returned to_closed _ db {t = t} h in
      let (_, s2, e2, h2) = returned (closed_event row) _ s1 {t = t} h1 in
      let (_, s3, e3, h3) = returned the_snapshot _ s2 {t = t} h2 in
      let (_, s4, e4, h4) =
        returned (insert_revisions drawn.snapshot_id pinned.pins) _ s3 {t = t} h3 in
      let (_, s5, e5, h5) =
        returned (insert_run_and_job uuid_text drawn pipeline_version summary) _ s4 {t = t} h4 in
      let (_, s6, e6, h6) =
        returned (insert_run_and_job uuid_text drawn pipeline_version research) _ s5 {t = t} h5 in
      let (row', s7, e7, h7) = returned to_processing _ s6 {t = t} h6 in
      let (_, s8, e8, h8) = returned (processing_event row') _ s7 {t = t} h7 in
      let (one, u1, _) = update_session_ok _ _ _ db s1 row e1 in
      let q2 = ends_at (closed_event row) s1 s2 _ e2 (events-Quiet row s1).0 in
      let (g3, m3, t3, w3) = insert_snapshot_ok _ s2 s3 e3 in
      let q4 =
        ends_at (insert_revisions drawn.snapshot_id pinned.pins) s3 s4 _ e4
          (insert_revisions-Quiet drawn.snapshot_id pinned.pins s3) in
      let q5 =
        ends_at (insert_run_and_job uuid_text drawn pipeline_version summary) s4 s5 _ e5
          (insert_run_and_job-Quiet uuid_text drawn pipeline_version summary s4) in
      let q6 =
        ends_at (insert_run_and_job uuid_text drawn pipeline_version research) s5 s6 _ e6
          (insert_run_and_job-Quiet uuid_text drawn pipeline_version research s5) in
      let (_, u7, _) = update_session_ok _ _ _ s6 s7 row' e7 in
      let q8 = ends_at (processing_event row') s7 s8 _ e8 (events-Quiet row' s7).1 in
      let q = Quiet-trans s3 s4 s6 q4 (Quiet-trans s4 s5 s6 q5 q6) in
      (
        composed drawn actor_id session pipeline_version pinned db s1 s2 s3 s6 s7 t one u1 q2 g3 m3
            t3 w3 q u7 (subst (Quiet s7) (ap (λ x. x.1) h8) q8),
        ground (arith, h8),
      )
