-- ===== src/Session/Close.antt =====
-- `SessionCloseService.close` of apps/api/app/session_service.py. The identifiers and ledger
-- sequences that it draws, and the time of its transaction, are arguments.
use axit_project.Prelude.{
  ℕ, ◌+◌, Bool, true, not, List, [], ◌∷◌, String, Option, none, some, ◌==◌, is_blank, leb, ◌||◌,
  if◌then◌else◌, Result, ok, err, require, traverse, string_eq, nat_eq, pos,
}
use axit_project.Errors.{
  Error, value_error, session_state_error, session_access_error, session_host_required_error,
}
use axit_project.Database.{Exec, pure, lift, gets, transaction, ◌>>=◌, ◌>>◌}
use axit_project.Domain.Models.{
  TalkSessionState, draft, open_session, closed, session_state_eq, summary, research,
}
use axit_project.Domain.Models.Records.{new_revision_status, CloseExclusion, new_close_exclusion}
use axit_project.Domain.Close.{require_close_eligibility}
use axit_project.Activity.Metadata.{no_entry, entry, words, whole}
use axit_project.Activity.Ledger.{AuditEvent}
use axit_project.Session.{TalkSession, GenerationSnapshot, Store, hosted_session, update_session}
use axit_project.Session.Rows.{current_rows, Pinned, pin_revisions, insert_snapshot}
use axit_project.Session.Writes.{
  CloseExclusionRequest, ClosedSnapshot, CloseDraw, in_state, shut, process, snapshot_row,
  new_snapshot, insert_revisions, revision_text, revision_by_id, insert_exclusions,
  insert_run_and_job,
}
use axit_project.Session.Events.{session_identity, record_session}

-- ORDER BY generation_epoch DESC LIMIT 1
unfoldable pub latest_snapshot : ℕ → List GenerationSnapshot → Option GenerationSnapshot
latest_snapshot session_id [] = none
latest_snapshot session_id (x ∷ rest) =
    let later = latest_snapshot session_id rest in
    if x.session_id == session_id
    then elim later [
      | none ↦ some x
      | some y ↦ if leb x.generation_epoch y.generation_epoch then some y else some x
    ]
    else later

unfoldable pub existing_snapshot_or_raise : ℕ → TalkSessionState → Exec Store ClosedSnapshot
unfolding latest_snapshot
existing_snapshot_or_raise session_id state db =
    if state == draft || state == open_session
    then (err session_state_error, db)
    else elim (latest_snapshot session_id db.generation_snapshots) [
      | none ↦ (err session_state_error, db)
      | some x ↦ (
        ok (record {
          snapshot_id = x.id;
          generation_epoch = x.generation_epoch;
          state = state;
          idempotent = true;
        }),
        db,
      )
    ]

-- `str` of a number, `str.lower` and the constraints of the ledger are parameters as well.
module _ (uuid_text decimal_text : ℕ → String) (lower : String → String)
    (satisfies : AuditEvent → Bool) where
  unfoldable pub record_closed : CloseDraw → ℕ → TalkSession → ℕ → Exec Store (Option AuditEvent)
  record_closed drawn actor_id session version =
      record_session uuid_text decimal_text lower satisfies drawn.closed_event "session.closed"
        (session_identity uuid_text decimal_text lower satisfies session.id version) actor_id
        session
        (entry (some "previous_state") (words "open") (
          entry (some "state") (words "closed")
            (entry (some "state_version") (whole (pos version)) no_entry)))

  unfoldable pub record_processing :
      CloseDraw → ℕ → TalkSession → ℕ → Exec Store (Option AuditEvent)
  record_processing drawn actor_id session version =
      record_session uuid_text decimal_text lower satisfies drawn.processing_event
        "session.processing"
        (session_identity uuid_text decimal_text lower satisfies session.id version) actor_id
        session
        (entry (some "previous_state") (words "closed") (
          entry (some "state") (words "processing") (
            entry (some "state_version") (whole (pos version)) (
              entry (some "generation_epoch") (whole (pos (session.generation_epoch + 1)))
                no_entry))))

  -- The updates and inserts once the revisions are pinned.
  unfoldable pub write_close :
      CloseDraw → ℕ → TalkSession → String → Pinned → Exec Store ClosedSnapshot
  unfolding insert_revisions insert_run_and_job
  write_close drawn actor_id session pipeline_version pinned = do
    closed_row ←
        update_session (in_state session.id open_session) (shut drawn.now) session_state_error
    record_closed drawn actor_id session closed_row.state_version
    insert_snapshot (snapshot_row drawn actor_id session pipeline_version pinned)
    insert_revisions drawn.snapshot_id pinned.pins
    insert_run_and_job uuid_text drawn pipeline_version summary
    insert_run_and_job uuid_text drawn pipeline_version research
    processing_row ←
        update_session (in_state session.id closed) (process (session.generation_epoch + 1))
          session_state_error
    record_processing drawn actor_id session processing_row.state_version
    pure (new_snapshot drawn session)

  -- What follows the test that the session is open.
  unfoldable pub close_open :
      CloseDraw
      → ℕ
      → TalkSession
      → List CloseExclusionRequest
      → List CloseExclusion
      → String
      → Option String
      → Exec Store ClosedSnapshot
  unfolding insert_exclusions pin_revisions write_close
  close_open drawn actor_id session requested excluded pipeline_version anchor_schema_version = do
    rows ← gets (current_rows session.id)
    current ← lift (
        traverse (λ row. new_revision_status (revision_text uuid_text row) row.processing_state)
          rows)
    eligibility ← lift (require_close_eligibility current excluded)
    insert_exclusions uuid_text drawn.exclusion_id 0 session.id actor_id rows requested
    included ← lift (traverse (revision_by_id uuid_text rows) eligibility.included_revision_ids)
    pinned ← lift (pin_revisions uuid_text rows included anchor_schema_version)
    write_close drawn actor_id session pipeline_version pinned

  -- The body of the transaction.
  unfoldable pub close_hosted :
      CloseDraw
      → ℕ
      → ℕ
      → List CloseExclusionRequest
      → List CloseExclusion
      → String
      → Option String
      → Exec Store ClosedSnapshot
  unfolding close_open existing_snapshot_or_raise
  close_hosted drawn session_id actor_id requested excluded pipeline_version anchor_schema_version =
      do
        session ←
            hosted_session session_access_error session_host_required_error actor_id session_id
        if session.state == open_session
            then close_open drawn actor_id session requested excluded pipeline_version
                anchor_schema_version
            else existing_snapshot_or_raise session.id session.state

  abbrev pub close_exclusions : List CloseExclusionRequest → Result Error (List CloseExclusion)
  close_exclusions requested =
      traverse
        (λ (item : CloseExclusionRequest).
          new_close_exclusion (uuid_text item.revision_id) item.reason)
        requested

  unfoldable pub close :
      CloseDraw
      → ℕ
      → ℕ
      → List CloseExclusionRequest
      → String
      → Option String
      → Exec Store ClosedSnapshot
  unfolding close_hosted
  close drawn session_id actor_id exclusions pipeline_version anchor_schema_version = do
    lift (require (not (is_blank pipeline_version)) value_error)
    lift (
        require (elim anchor_schema_version [ none ↦ true | some asked ↦ not (is_blank asked) ])
          value_error)
    excluded ← lift (close_exclusions exclusions)
    transaction (
        close_hosted drawn session_id actor_id exclusions excluded pipeline_version
          anchor_schema_version)
