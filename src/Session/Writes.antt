-- ===== src/Session/Writes.antt =====
-- The rows that `SessionCloseService.close` of apps/api/app/session_service.py inserts and the changes
-- of its updates, with the identifiers and ledger sequences that it draws as arguments.
use axit_project.Prelude.{
  ℕ, suc, ◌+◌, Bool, false, ◌&&◌, List, [], ◌∷◌, String, none, some, ◌==◌, Result, ok, err,
  string_eq, nat_eq,
}
use axit_project.Errors.{Error, runtime_error}
use axit_project.Json.{Fields, field, end, text}
use axit_project.Database.{Exec, pure, lift, find_by, ◌>>=◌, ◌>>◌}
use axit_project.Domain.Models.{
  TalkSessionState, closed, processing, session_state_eq, GenerationKind, kind_value, queued,
}
use axit_project.Queue.{Job}
use axit_project.Queue.Enqueue.{new_job}
use axit_project.Activity.{join}
use axit_project.Activity.Ledger.{Drawn}
use axit_project.Session.{
  TalkSession, GenerationSnapshot, SnapshotExclusion, SnapshotRevision, GenerationRun, Store,
}
use axit_project.Session.Rows.{
  RevisionRow, Pin, Pinned, insert_exclusion, insert_snapshot_revision, insert_generation_run,
  insert_snapshot_job,
}

pub record CloseExclusionRequest : Type 0 where
  pub revision_id : ℕ
  pub reason : String

pub record ClosedSnapshot : Type 0 where
  pub snapshot_id : ℕ
  pub generation_epoch : ℕ
  pub state : TalkSessionState
  pub idempotent : Bool

-- One kind's run and job.
pub record RunDraw : Type 0 where
  pub run_id : ℕ
  pub job_id : ℕ

pub record CloseDraw : Type 0 where
  pub exclusion_id : ℕ → ℕ
  pub snapshot_id : ℕ
  pub closed_event : Drawn
  pub processing_event : Drawn
  pub run_of : GenerationKind → RunDraw
  pub now : ℕ

-- The rows and changes of the two updates of the session.
abbrev pub in_state : ℕ → TalkSessionState → TalkSession → Bool
in_state session_id state s = s.id == session_id && s.state == state

abbrev pub shut : ℕ → TalkSession → TalkSession
shut now s = record s { state = closed; closed_at = some now; state_version = s.state_version + 1 }

abbrev pub process : ℕ → TalkSession → TalkSession
process epoch s = record s {
  state = processing;
  generation_epoch = epoch;
  state_version = s.state_version + 1;
  retry_ordinal = 0;
}

abbrev pub snapshot_row : CloseDraw → ℕ → TalkSession → String → Pinned → GenerationSnapshot
snapshot_row drawn actor_id session pipeline_version pinned = record {
  id = drawn.snapshot_id;
  session_id = session.id;
  generation_epoch = session.generation_epoch + 1;
  created_by = actor_id;
  topic_copy = session.topic;
  pipeline_version = pipeline_version;
  anchor_schema_version = pinned.version;
}

abbrev pub new_snapshot : CloseDraw → TalkSession → ClosedSnapshot
new_snapshot drawn session = record {
  snapshot_id = drawn.snapshot_id;
  generation_epoch = session.generation_epoch + 1;
  state = processing;
  idempotent = false;
}

abbrev pub revision_row : ℕ → Pin → SnapshotRevision
revision_row snapshot_id pin = record {
  snapshot_id = snapshot_id;
  source_revision_id = pin.revision_id;
  extraction_run_id = pin.run_id;
}

unfoldable pub insert_revisions : ℕ → List Pin → Exec Store (Unit {0})
insert_revisions snapshot_id [] = pure tt
insert_revisions snapshot_id (pin ∷ rest) = do
  insert_snapshot_revision (revision_row snapshot_id pin)
  insert_revisions snapshot_id rest

abbrev pub queued_run : CloseDraw → String → GenerationKind → GenerationRun
queued_run drawn pipeline_version kind = record {
  id = (drawn.run_of kind).run_id;
  snapshot_id = drawn.snapshot_id;
  kind = kind;
  provider = "mock";
  model = "fixture-v1";
  prompt_version = "phase2-contract-v1";
  pipeline_version = pipeline_version;
  state = queued;
  error_code = none;
  completed_at = none;
}

-- `str` of a UUID is a parameter.
module _ (uuid_text : ℕ → String) where
  abbrev pub revision_text : RevisionRow → String
  revision_text row = uuid_text row.id

  -- `revision_by_id[text]`, at a key of the dictionary
  unfoldable pub revision_by_id : List RevisionRow → String → Result Error ℕ
  revision_by_id rows id = elim (find_by (λ row. revision_text row == id) rows) [
    | none ↦ err runtime_error
    | some row ↦ ok row.id
  ]

  abbrev pub exclusion_row : ℕ → ℕ → ℕ → ℕ → String → SnapshotExclusion
  exclusion_row id session_id actor_id revision_id reason = record {
    id = id;
    session_id = session_id;
    source_revision_id = revision_id;
    reason = reason;
    actor_id = actor_id;
  }

  unfoldable pub insert_exclusions :
      (ℕ → ℕ) → ℕ → ℕ → ℕ → List RevisionRow → List CloseExclusionRequest → Exec Store (Unit {0})
  unfolding revision_by_id
  insert_exclusions drawn index session_id actor_id rows [] = pure tt
  insert_exclusions drawn index session_id actor_id rows (item ∷ rest) = do
    revision_id ← lift (revision_by_id rows (uuid_text item.revision_id))
    insert_exclusion (exclusion_row (drawn index) session_id actor_id revision_id item.reason)
    insert_exclusions drawn (suc index) session_id actor_id rows rest

  abbrev pub generation_key : CloseDraw → String → GenerationKind → String
  generation_key drawn pipeline_version kind = join (
      "generation:"
      ∷ uuid_text drawn.snapshot_id
      ∷ ":"
      ∷ kind_value kind
      ∷ ":"
      ∷ pipeline_version
      ∷ [])

  abbrev pub generation_payload : CloseDraw → String → GenerationKind → Fields
  generation_payload drawn pipeline_version kind =
      field "snapshot_id" (text (uuid_text drawn.snapshot_id)) (
        field "kind" (text (kind_value kind))
          (field "pipeline_version" (text pipeline_version) end))

  abbrev pub generation_job : CloseDraw → String → GenerationKind → Job
  generation_job drawn pipeline_version kind =
      new_job (drawn.run_of kind).job_id drawn.now (generation_key drawn pipeline_version kind)
        (kind_value kind) (generation_payload drawn pipeline_version kind) (some drawn.snapshot_id)

  -- One round of `for kind in _CANONICAL_GENERATION_KINDS`.
  unfoldable pub insert_run_and_job : CloseDraw → String → GenerationKind → Exec Store (Unit {0})
  insert_run_and_job drawn pipeline_version kind = do
    insert_generation_run (queued_run drawn pipeline_version kind)
    insert_snapshot_job (generation_job drawn pipeline_version kind) drawn.snapshot_id
