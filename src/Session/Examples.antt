-- ===== src/Session/Examples.antt =====
-- Concrete inputs for the theorems on sessions.
use axit_project.Prelude.{
  ℕ, suc, zero, ◌≡◌, refl, Bool, true, false, List, [], ◌∷◌, String, Option, none, some, ok, err,
  map, arith, ◌⊎◌, ◌==◌, nat_eq,
}
use axit_project.Errors.{integrity_error}
use axit_project.Json.{Chars, null}
use axit_project.Queue.{Job}
use axit_project.Domain.Models.{
  open_session, processing, ready, needs_attention, failed_retryable, run_failed_retryable,
  session_state_eq, revision_ready, failed, GenerationKind, summary, research, TalkSessionState,
}
use axit_project.Activity.Ledger.{AuditEvent, Drawn}
use axit_project.Session.{
  Membership, TalkSession, Submission, SourceRevision, ExtractionRun, extraction_succeeded,
  GenerationRun, GenerationSnapshot, Store,
}
use axit_project.Database.{count_by, find_by}
use axit_project.Domain.Close.{is_empty}
use axit_project.Session.Reopen.{reopen}
use axit_project.Session.Retry.{RetryDraw, RetrySessionView, retry}
use axit_project.Session.Closed.{visible}
use axit_project.Session.Sound.Retried.{Requeues, retry-Requeues}
use axit_project.Session.Sound.History.{nothing_yet, closes, reopens, retries, History-IsSound}
use axit_project.Session.Sound.{IsSound}
use axit_project.Session.Sound.Closed.{close-again}
use axit_project.Session.Close.{latest_snapshot, close}
use axit_project.Session.Writes.{CloseDraw, CloseExclusionRequest, ClosedSnapshot}

-- Texts that tell numbers apart.
abbrev tally : ℕ → String
tally zero = ""
tally (suc n) = String.◌∷◌ "i" (tally n)

abbrev as_is : String → String
as_is s = s

abbrev any_event : AuditEvent → Bool
any_event e = true

abbrev hosted : TalkSession
hosted = record {
  id = 1;
  room_id = 5;
  host_id = 7;
  topic = "plan";
  state = open_session;
  generation_epoch = 0;
  state_version = 3;
  retry_ordinal = 0;
  closed_at = none;
}

abbrev first_revision : SourceRevision
first_revision = record {
  id = 2;
  submission_id = 3;
  processing_state = revision_ready;
  approved_extraction_run_id = some 4;
  is_current = true;
}

abbrev second_revision : SourceRevision
second_revision = record {
  id = 6;
  submission_id = 4;
  processing_state = failed;
  approved_extraction_run_id = none;
  is_current = true;
}

abbrev opened : Store
opened = record {
  room_memberships =
      record { room_id = 5; user_id = 7; left_at = none }
      ∷ record { room_id = 5; user_id = 8; left_at = none }
      ∷ [];
  talk_sessions = hosted ∷ [];
  submissions =
      record { id = 3; session_id = 1; deleted_at = none }
      ∷ record { id = 4; session_id = 1; deleted_at = none }
      ∷ [];
  source_revisions = second_revision ∷ first_revision ∷ [];
  extraction_runs =
      record {
        id = 4;
        source_revision_id = 2;
        status = extraction_succeeded;
        anchor_schema_version = "v1";
      }
      ∷ [];
  snapshot_exclusions = [];
  generation_snapshots = [];
  snapshot_revisions = [];
  generation_runs = [];
  queue = record { jobs = []; job_attempts = []; job_results = []; snapshots = [] };
  audit_events = [];
}

abbrev runs_drawn : GenerationKind → ℕ × ℕ
runs_drawn summary = (21, 22)
runs_drawn research = (23, 24)

abbrev drawn : CloseDraw
drawn = record {
  exclusion_id = λ n. n;
  snapshot_id = 9;
  closed_event = record { id = 31; ledger_sequence = 1 };
  processing_event = record { id = 32; ledger_sequence = 2 };
  run_of = λ kind. record { run_id = (runs_drawn kind).0; job_id = (runs_drawn kind).1 };
  now = 100;
}

abbrev leave_out : List CloseExclusionRequest
leave_out = record { revision_id = 6; reason = "broken" } ∷ []

-- The tables are sound when the session is opened.
opened-IsSound : IsSound opened
unfolding count_by latest_snapshot
opened-IsSound = record {
  queue = record {
    one_row = λ id. omega arith;
    one_key = λ key. omega arith;
    attempts_known = λ id e. refl;
    results_known = λ id e. refl;
    consistent = tt;
  };
  one_session = λ id. ground arith;
  numbered = ((refl, λ e. absurd (ground (arith, e))), tt);
}

abbrev after_close : Store
after_close = (close tally tally as_is any_event drawn 1 7 leave_out "p1" none opened).1

abbrev first_answer : ClosedSnapshot
first_answer = record {
  snapshot_id = 9;
  generation_epoch = 1;
  state = processing;
  idempotent = false;
}

closed_once :
    close tally tally as_is any_event drawn 1 7 leave_out "p1" none opened
    ≡ (ok first_answer, after_close)
unfolding close axit_project.Prelude.is_blank axit_project.Prelude.traverse
    axit_project.Domain.Models.Records.new_close_exclusion axit_project.Session.hosted_session
    axit_project.Database.find_by axit_project.Session.Rows.current_rows
    axit_project.Domain.Models.Records.new_revision_status
    axit_project.Domain.Close.require_close_eligibility
    axit_project.Domain.Close.evaluate_close_eligibility axit_project.Prelude.Sorting.sorted
    axit_project.Session.Rows.insert_exclusion axit_project.Prelude.text_length
    axit_project.Session.Rows.pins_of axit_project.Session.update_session
    axit_project.Database.count_by axit_project.Session.Close.record_closed
    axit_project.Session.Close.record_processing axit_project.Session.Events.record_session
    axit_project.Activity.Keys.build_event_key axit_project.Activity.Ledger.record_activity
    axit_project.Activity.Metadata.json_text axit_project.Activity.Metadata.safe_audit_metadata
    axit_project.Activity.Metadata.utf8_length axit_project.Activity.Metadata.validate_entries
    axit_project.Database.update_where axit_project.Activity.Metadata.has_part
    axit_project.Activity.Keys.starts_with axit_project.Session.Rows.pin_revisions
    axit_project.Session.Writes.insert_run_and_job axit_project.Session.Rows.insert_generation_run
    axit_project.Session.Rows.insert_snapshot_job axit_project.Session.Rows.insert_snapshot
    axit_project.Session.Rows.insert_snapshot_revision
closed_once = refl

abbrev drawn_later : CloseDraw
drawn_later = record drawn { snapshot_id = 10; now = 200 }

close-again_example :
    close tally tally as_is any_event drawn_later 1 7 leave_out "p1" none after_close
    ≡ (ok (record first_answer { idempotent = true }), after_close)
close-again_example =
    close-again tally tally as_is any_event 1 7 leave_out "p1" none drawn drawn_later opened
      after_close first_answer opened-IsSound closed_once

abbrev no_hash : Chars → String
no_hash text = ""

abbrev retry_drawn : RetryDraw
retry_drawn = record {
  retry_event = record { id = 41; ledger_sequence = 3 };
  processing_event = record { id = 42; ledger_sequence = 4 };
  now = 300;
}

-- A close, a retry by its host and a reopen that is refused.
History-IsSound_example :
    IsSound
      (reopen tally tally as_is any_event
        (record { id = 43; ledger_sequence = 5 })
        1
        7
        (retry tally tally as_is any_event retry_drawn 1 7 after_close).1).1
History-IsSound_example =
    History-IsSound tally tally as_is any_event no_hash opened _ opened-IsSound (
      reopens (record { id = 43; ledger_sequence = 5 }) 1 7
        (retries retry_drawn 1 7 (closes drawn 1 7 leave_out "p1" none nothing_yet)))

-- A session whose research failed.
abbrev failed_job : Job
failed_job = record {
  id = 24;
  logical_key = "k";
  kind = "research";
  snapshot_id = some 9;
  payload_json = null;
  state = failed_retryable;
  attempts = 1;
  lease_generation = 1;
  lease_token = none;
  lease_owner = none;
  lease_until = none;
  heartbeat_at = none;
  error_code = some "timeout";
  created_at = 100;
  updated_at = 150;
}

abbrev failed_run : GenerationRun
failed_run = record {
  id = 23;
  snapshot_id = 9;
  kind = research;
  provider = "mock";
  model = "fixture-v1";
  prompt_version = "phase2-contract-v1";
  pipeline_version = "p1";
  state = run_failed_retryable;
  error_code = some "timeout";
  completed_at = some 150;
}

abbrev snapshot : GenerationSnapshot
snapshot = record {
  id = 9;
  session_id = 1;
  generation_epoch = 1;
  created_by = 7;
  topic_copy = "plan";
  pipeline_version = "p1";
  anchor_schema_version = "v1";
}

abbrev stuck : Store
stuck = record opened {
  talk_sessions =
      record hosted { state = needs_attention; generation_epoch = 1; state_version = 6 } ∷ [];
  generation_snapshots = snapshot ∷ [];
  generation_runs = failed_run ∷ [];
  queue = record {
    jobs = failed_job ∷ [];
    job_attempts = [];
    job_results = [];
    snapshots = 9 ∷ [];
  };
}

abbrev retry_answer : RetrySessionView
retry_answer = record { snapshot_id = 9; state = processing; requeued_kinds = research ∷ [] }

abbrev after_retry : Store
after_retry = (retry tally tally as_is any_event retry_drawn 1 7 stuck).1

retries_once :
    retry tally tally as_is any_event retry_drawn 1 7 stuck ≡ (ok retry_answer, after_retry)
unfolding retry axit_project.Session.hosted_session axit_project.Database.find_by
    axit_project.Session.update_session axit_project.Database.count_by
    axit_project.Session.Retry.record_requested axit_project.Session.Retry.record_retrying
    axit_project.Session.Events.record_session axit_project.Activity.Keys.build_event_key
    axit_project.Activity.Ledger.record_activity axit_project.Activity.Metadata.json_text
    axit_project.Activity.Metadata.safe_audit_metadata axit_project.Activity.Metadata.utf8_length
    axit_project.Activity.Metadata.validate_entries axit_project.Database.update_where
    axit_project.Activity.Metadata.has_part axit_project.Activity.Keys.starts_with
    axit_project.Session.Retry.requeue_failures axit_project.Session.Retry.latest_snapshot_id
    axit_project.Session.Close.latest_snapshot axit_project.Session.Retry.requeue_kinds
    axit_project.Session.Retry.retryable_kinds
retries_once = refl

retry-Requeues_example :
    (session : TalkSession) × (latest : GenerationSnapshot) × (find_by
        (visible 7 1 stuck)
        stuck.talk_sessions
      ≡ some session)
    × ((session.host_id == 7) ≡ true)
    × (latest_snapshot session.id stuck.generation_snapshots ≡ some latest)
    × (retry_answer.snapshot_id ≡ latest.id)
    × ((((session.state == processing) ≡ true)
          × (is_empty retry_answer.requeued_kinds ≡ true)
          × (after_retry ≡ stuck))
        ⊎ (((session.state == needs_attention) ≡ true)
            × (is_empty retry_answer.requeued_kinds ≡ false)
            × Requeues retry_drawn.now stuck after_retry retry_answer))
retry-Requeues_example =
    retry-Requeues tally tally as_is any_event retry_drawn 1 7 stuck after_retry retry_answer
      retries_once

-- The revision that was left out is left out again once the session was analysed and reopened: the
-- first exclusion is still there, and the database refuses the second.
abbrev analysed : Store
analysed = record after_close {
  talk_sessions = record hosted { state = ready; generation_epoch = 1; state_version = 6 } ∷ [];
}

abbrev reopened_store : Store
reopened_store =
    (reopen tally tally as_is any_event (record { id = 43; ledger_sequence = 5 }) 1 7 analysed).1

excluded_twice :
    (close tally tally as_is any_event drawn_later 1 7 leave_out "p1" none reopened_store).0
    ≡ err integrity_error
unfolding reopen axit_project.Session.Reopen.record_reopened
    axit_project.Session.Reopen.reopen_session close axit_project.Prelude.is_blank
    axit_project.Prelude.traverse axit_project.Domain.Models.Records.new_close_exclusion
    axit_project.Session.hosted_session axit_project.Database.find_by
    axit_project.Session.Rows.current_rows axit_project.Domain.Models.Records.new_revision_status
    axit_project.Domain.Close.require_close_eligibility
    axit_project.Domain.Close.evaluate_close_eligibility axit_project.Prelude.Sorting.sorted
    axit_project.Session.Rows.insert_exclusion axit_project.Prelude.text_length
    axit_project.Session.Rows.pins_of axit_project.Session.update_session
    axit_project.Database.count_by axit_project.Session.Close.record_closed
    axit_project.Session.Close.record_processing axit_project.Session.Events.record_session
    axit_project.Activity.Keys.build_event_key axit_project.Activity.Ledger.record_activity
    axit_project.Activity.Metadata.json_text axit_project.Activity.Metadata.safe_audit_metadata
    axit_project.Activity.Metadata.utf8_length axit_project.Activity.Metadata.validate_entries
    axit_project.Database.update_where axit_project.Activity.Metadata.has_part
    axit_project.Activity.Keys.starts_with axit_project.Session.Rows.pin_revisions
    axit_project.Session.Writes.insert_run_and_job axit_project.Session.Rows.insert_generation_run
    axit_project.Session.Rows.insert_snapshot_job axit_project.Session.Rows.insert_snapshot
    axit_project.Session.Rows.insert_snapshot_revision
excluded_twice = refl
