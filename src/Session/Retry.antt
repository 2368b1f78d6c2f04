-- ===== src/Session/Retry.antt =====
-- `SessionRetryService.retry` of apps/api/app/session_retry_service.py.
use axit_project.Prelude.{
  ℕ, ◌+◌, Bool, false, ◌&&◌, not, List, [], ◌∷◌, map, filter_by, String, Option, none, some, ◌==◌,
  length, if◌then◌else◌, ok, err, require, string_eq, nat_eq, pos,
}
use axit_project.Errors.{
  session_retry_access_error, session_retry_host_required_error, session_retry_unavailable_error,
}
use axit_project.Database.{Exec, pure, lift, gets, transaction, count_by, update_where, ◌>>=◌, ◌>>◌}
use axit_project.Domain.Models.{
  TalkSessionState, processing, needs_attention, session_state_eq, pending, failed_retryable,
  job_state_eq, GenerationKind, kind_value, queued, is_retryable_failure,
}
use axit_project.Domain.Close.{is_empty}
use axit_project.Queue.{Job}
use axit_project.Activity.Keys.{Identity}
use axit_project.Activity.Metadata.{no_entry, entry, words, whole}
use axit_project.Activity.Ledger.{AuditEvent, Drawn}
use axit_project.Session.{
  TalkSession, GenerationRun, Store, hosted_session, update_session, is_null,
}
use axit_project.Session.Close.{latest_snapshot}
use axit_project.Session.Writes.{in_state}
use axit_project.Session.Events.{session_identity, record_session}

pub record RetrySessionView : Type 0 where
  pub snapshot_id : ℕ
  pub state : TalkSessionState
  pub requeued_kinds : List GenerationKind

pub record RetryDraw : Type 0 where
  pub retry_event : Drawn
  pub processing_event : Drawn
  pub now : ℕ

unfoldable pub latest_snapshot_id : ℕ → Exec Store ℕ
latest_snapshot_id session_id db = elim (latest_snapshot session_id db.generation_snapshots) [
  | none ↦ (err session_retry_unavailable_error, db)
  | some x ↦ (ok x.id, db)
]

-- The rows that the two updates of a round write.
abbrev pub retryable_job : ℕ → GenerationKind → Job → Bool
retryable_job snapshot_id kind j =
    elim j.snapshot_id [ none ↦ false | some s ↦ s == snapshot_id ]
    && j.kind == kind_value kind
    && j.state == failed_retryable
    && is_null j.lease_token
    && is_null j.lease_owner
    && is_null j.lease_until

abbrev pub requeue_job : ℕ → Job → Job
requeue_job now j = record j { state = pending; error_code = none; updated_at = now }

abbrev pub retryable_run : ℕ → GenerationKind → GenerationRun → Bool
retryable_run snapshot_id kind r =
    r.snapshot_id == snapshot_id
    && kind_value r.kind == kind_value kind
    && is_retryable_failure r.state

abbrev pub requeue_run : GenerationRun → GenerationRun
requeue_run r = record r { state = queued; error_code = none; completed_at = none }

unfoldable pub update_job : ℕ → ℕ → GenerationKind → Exec Store (Unit {0})
update_job now snapshot_id kind db =
    if count_by (retryable_job snapshot_id kind) db.queue.jobs == 1
    then (
      ok tt,
      record db {
        queue = record db.queue {
          jobs = update_where (retryable_job snapshot_id kind) (requeue_job now) db.queue.jobs;
        };
      },
    )
    else (err session_retry_unavailable_error, db)

unfoldable pub update_run : ℕ → GenerationKind → Exec Store (Unit {0})
update_run snapshot_id kind db =
    if count_by (retryable_run snapshot_id kind) db.generation_runs == 1
    then (
      ok tt,
      record db {
        generation_runs =
            update_where (retryable_run snapshot_id kind) requeue_run db.generation_runs;
      },
    )
    else (err session_retry_unavailable_error, db)

-- `for kind in retryable_kinds`
unfoldable pub requeue_kinds : ℕ → ℕ → List GenerationKind → Exec Store (Unit {0})
unfolding update_job update_run
requeue_kinds now snapshot_id [] = pure tt
requeue_kinds now snapshot_id (kind ∷ rest) = do
  update_job now snapshot_id kind
  update_run snapshot_id kind
  requeue_kinds now snapshot_id rest

unfoldable pub retryable_kinds : ℕ → Store → List GenerationKind
retryable_kinds snapshot_id db =
    map (λ (r : GenerationRun). r.kind)
      (filter_by
        (λ (r : GenerationRun). r.snapshot_id == snapshot_id && is_retryable_failure r.state)
        db.generation_runs)

abbrev pub retried : TalkSession → TalkSession
retried s = record s {
  state = processing;
  state_version = s.state_version + 1;
  retry_ordinal = s.retry_ordinal + 1;
}

module _ (uuid_text decimal_text : ℕ → String) (lower : String → String)
    (satisfies : AuditEvent → Bool) where
  abbrev pub retry_identity : ℕ → ℕ → ℕ → Identity
  retry_identity session_id generation_epoch retry_ordinal name =
      if name == "session_id"
      then some (uuid_text session_id)
      else if name == "generation_epoch"
      then some (decimal_text generation_epoch)
      else if name == "retry_ordinal"
      then some (decimal_text retry_ordinal)
      else none

  unfoldable pub record_requested :
      RetryDraw → ℕ → TalkSession → ℕ → ℕ → Exec Store (Option AuditEvent)
  record_requested drawn actor_id session retry_ordinal count =
      record_session uuid_text decimal_text lower satisfies drawn.retry_event
        "session.retry_requested" (retry_identity session.id session.generation_epoch retry_ordinal)
        actor_id session
        (entry (some "generation_epoch") (whole (pos session.generation_epoch)) (
          entry (some "retry_ordinal") (whole (pos retry_ordinal))
            (entry (some "requeued_count") (whole (pos count)) no_entry)))

  unfoldable pub record_retrying : RetryDraw → ℕ → TalkSession → ℕ → Exec Store (Option AuditEvent)
  record_retrying drawn actor_id session version =
      record_session uuid_text decimal_text lower satisfies drawn.processing_event
        "session.processing"
        (session_identity uuid_text decimal_text lower satisfies session.id version) actor_id
        session
        (entry (some "previous_state") (words "needs_attention") (
          entry (some "state") (words "processing") (
            entry (some "state_version") (whole (pos version))
              (entry (some "generation_epoch") (whole (pos session.generation_epoch)) no_entry))))

  -- The update of the session and the two events.
  unfoldable pub write_retry :
      RetryDraw → ℕ → TalkSession → List GenerationKind → Exec Store (Unit {0})
  write_retry drawn actor_id session kinds = do
    updated ←
        update_session (in_state session.id needs_attention) retried session_retry_unavailable_error
    record_requested drawn actor_id session updated.retry_ordinal (length kinds)
    record_retrying drawn actor_id session updated.state_version
    pure tt

  -- What follows the test that the session needs attention.
  unfoldable pub requeue_failures : RetryDraw → ℕ → TalkSession → ℕ → Exec Store RetrySessionView
  unfolding requeue_kinds retryable_kinds write_retry
  requeue_failures drawn actor_id session snapshot_id = do
    kinds ← gets (retryable_kinds snapshot_id)
    lift (require (not (is_empty kinds)) session_retry_unavailable_error)
    requeue_kinds drawn.now snapshot_id kinds
    write_retry drawn actor_id session kinds
    pure (record { snapshot_id = snapshot_id; state = processing; requeued_kinds = kinds })

  unfoldable pub retry_session : RetryDraw → ℕ → TalkSession → ℕ → Exec Store RetrySessionView
  unfolding requeue_failures
  retry_session drawn actor_id session snapshot_id =
      if session.state == processing
      then pure (record { snapshot_id = snapshot_id; state = processing; requeued_kinds = [] })
      else if session.state == needs_attention
      then requeue_failures drawn actor_id session snapshot_id
      else lift (err session_retry_unavailable_error)

  -- The body of the transaction.
  unfoldable pub retry_hosted : RetryDraw → ℕ → ℕ → Exec Store RetrySessionView
  unfolding retry_session latest_snapshot_id
  retry_hosted drawn session_id actor_id = do
    session ←
        hosted_session session_retry_access_error session_retry_host_required_error actor_id
          session_id
    snapshot_id ← latest_snapshot_id session.id
    retry_session drawn actor_id session snapshot_id

  unfoldable pub retry : RetryDraw → ℕ → ℕ → Exec Store RetrySessionView
  unfolding retry_hosted
  retry drawn session_id actor_id = transaction (retry_hosted drawn session_id actor_id)
