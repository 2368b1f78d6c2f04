-- ===== src/Session/Rows.antt =====
-- What `SessionCloseService.close` reads of the session's current revisions, and the rows that it
-- inserts, with the uniqueness and CHECK constraints that they meet.
use axit_project.Prelude.{
  ℕ, Bool, true, false, ◌&&◌, ◌||◌, not, List, [], ◌∷◌, ◌++◌, map, String, Option, none, some, ◌==◌,
  any_by, contains, filter_by, leb, ltb, is_blank, text_length, if◌then◌else◌, Result, ok, err,
  require, string_eq, nat_eq, ◌>>=◌,
}
use axit_project.Prelude.Sorting.{sorted}
use axit_project.Errors.{
  Error, integrity_error, extraction_run_missing_error, extraction_anchor_schema_mismatch_error,
}
use axit_project.Domain.Close.{is_empty}
use axit_project.Database.{Exec, find_by}
use axit_project.Domain.Models.{RevisionProcessingState, kind_value, job_state_eq}
use axit_project.Queue.{Job}
use axit_project.Session.{
  Submission, SourceRevision, ExtractionRun, ExtractionStatus, extraction_succeeded,
  SnapshotExclusion, GenerationSnapshot, SnapshotRevision, GenerationRun, Store, is_null,
}

-- A row of the query on the current revisions.
pub record RevisionRow : Type 0 where
  pub id : ℕ
  pub processing_state : RevisionProcessingState
  pub approved_extraction_run_id : Option ℕ
  pub approved_run : Option ExtractionRun

-- `LEFT JOIN extraction_runs AS approved_run ON …`
unfoldable pub approved_run_of : List ExtractionRun → SourceRevision → Option ExtractionRun
approved_run_of runs revision = elim revision.approved_extraction_run_id [
  | none ↦ none
  | some run_id ↦
      find_by (λ (run : ExtractionRun). run.id == run_id && run.source_revision_id == revision.id)
        runs
]

-- `ORDER BY revision.id`
unfoldable pub insert_by_id : SourceRevision → List SourceRevision → List SourceRevision
insert_by_id r [] = r ∷ []
insert_by_id r (s ∷ rest) =
    let later = insert_by_id r rest in if ltb s.id r.id then s ∷ later else r ∷ s ∷ rest

unfoldable pub order_by_id : List SourceRevision → List SourceRevision
unfolding insert_by_id
order_by_id [] = []
order_by_id (r ∷ rest) = insert_by_id r (order_by_id rest)

abbrev pub is_of_session : List Submission → ℕ → SourceRevision → Bool
is_of_session submissions session_id revision =
    any_by
      (λ (s : Submission).
        s.id == revision.submission_id && s.session_id == session_id && is_null s.deleted_at)
      submissions

unfoldable pub current_rows : ℕ → Store → List RevisionRow
unfolding approved_run_of order_by_id
current_rows session_id db =
    map
      (λ (r : SourceRevision). record {
        id = r.id;
        processing_state = r.processing_state;
        approved_extraction_run_id = r.approved_extraction_run_id;
        approved_run = approved_run_of db.extraction_runs r;
      })
      (order_by_id (
        filter_by
          (λ (r : SourceRevision). r.is_current && is_of_session db.submissions session_id r)
          db.source_revisions))

-- `_require_nonempty_text`
unfoldable pub require_nonempty_text : String → Result Error String
require_nonempty_text value =
    if is_blank value then err extraction_anchor_schema_mismatch_error else ok value

-- A revision with its approved run and that run's anchor schema version.
pub record Pin : Type 0 where
  pub revision_id : ℕ
  pub run_id : ℕ
  pub version : String

abbrev has_succeeded : ExtractionStatus → Bool
has_succeeded extraction_succeeded = true
has_succeeded _ = false

abbrev pub add_pin : RevisionRow → ExtractionRun → Result Error (List Pin) → Result Error (List Pin)
add_pin row run later = require_nonempty_text run.anchor_schema_version >>= λ version.
    later >>= λ pins.
    ok (record { revision_id = row.id; run_id = run.id; version = version } ∷ pins)

-- The dictionary `extraction_runs`, by the rows.
unfoldable pub pins_of : List RevisionRow → Result Error (List Pin)
unfolding require_nonempty_text
pins_of [] = ok []
pins_of (row ∷ rest) =
    let later = pins_of rest in
    elim row.approved_run [
      | none ↦ later
      | some run ↦ if has_succeeded run.status then add_pin row run later else later
    ]

unfoldable pub pin_of : List Pin → ℕ → Option Pin
pin_of pins revision_id = find_by (λ (p : Pin). p.revision_id == revision_id) pins

-- `extraction_runs[revision_id]` for each of them, once none is missing
unfoldable pub pins_at : List Pin → List ℕ → List Pin
unfolding pin_of
pins_at pins [] = []
pins_at pins (id ∷ rest) =
    let later = pins_at pins rest in elim (pin_of pins id) [ none ↦ later | some p ↦ p ∷ later ]

-- The elements of a set of texts.
unfoldable pub distinct_texts : List String → List String
distinct_texts [] = []
distinct_texts (s ∷ rest) =
    let later = distinct_texts rest in if contains later s then later else s ∷ later

abbrev pub only_one : List String → Result Error String
only_one (version ∷ []) = ok version
only_one _ = err extraction_anchor_schema_mismatch_error

-- What is pinned: the included revisions, each with its run, under one anchor schema version.
pub record Pinned : Type 0 where
  pub pins : List Pin
  pub version : String

unfoldable pub pin_revisions :
    (ℕ → String) → List RevisionRow → List ℕ → Option String → Result Error Pinned
unfolding pin_of pins_at distinct_texts
pin_revisions uuid_text rows included anchor_schema_version = pins_of rows >>= λ runs.
    let missing = filter_by (λ id. is_null (pin_of runs id)) included in
    require (is_empty missing) (extraction_run_missing_error (sorted (map uuid_text missing)))
    >>= λ _.
        only_one (distinct_texts (map (λ (p : Pin). p.version) (pins_at runs included)))
        >>= λ version.
            require (elim anchor_schema_version [ none ↦ true | some asked ↦ asked == version ])
              extraction_anchor_schema_mismatch_error
            >>= λ _. ok (record { pins = pins_at runs included; version = version })

-- An INSERT of a row that clashes with none by the test.
unfoldable pub insert_row : {A : Type 0} → (A → Bool) → Bool → A → List A → Result Error (List A)
insert_row clashes allowed row rows =
    if any_by clashes rows || not allowed then err integrity_error else ok (rows ++ row ∷ [])

abbrev pub written : Store → Result Error Store → Result Error (Unit {0}) × Store
written before (ok after) = (ok tt, after)
written before (err e) = (err e, before)

-- UNIQUE (session_id, source_revision_id) and CHECK (char_length(reason) BETWEEN 1 AND 1000)
unfoldable pub insert_exclusion : SnapshotExclusion → Exec Store (Unit {0})
unfolding insert_row
insert_exclusion row db = written db (
    insert_row
      (λ (x : SnapshotExclusion).
        x.id == row.id
        || (x.session_id == row.session_id && x.source_revision_id == row.source_revision_id))
      (leb 1 (text_length row.reason) && leb (text_length row.reason) 1000) row
      db.snapshot_exclusions
    >>= λ rows. ok (record db { snapshot_exclusions = rows }))

-- UNIQUE (session_id, generation_epoch) and CHECK (generation_epoch >= 1)
unfoldable pub insert_snapshot : GenerationSnapshot → Exec Store (Unit {0})
unfolding insert_row
insert_snapshot row db = written db (
    insert_row
      (λ (x : GenerationSnapshot).
        x.id == row.id
        || (x.session_id == row.session_id && x.generation_epoch == row.generation_epoch))
      (leb 1 row.generation_epoch) row db.generation_snapshots
    >>= λ rows. ok (record db {
      generation_snapshots = rows;
      queue = record db.queue { snapshots = db.queue.snapshots ++ row.id ∷ [] };
    }))

-- PRIMARY KEY (snapshot_id, source_revision_id)
unfoldable pub insert_snapshot_revision : SnapshotRevision → Exec Store (Unit {0})
unfolding insert_row
insert_snapshot_revision row db = written db (
    insert_row
      (λ (x : SnapshotRevision).
        x.snapshot_id == row.snapshot_id && x.source_revision_id == row.source_revision_id)
      true row db.snapshot_revisions
    >>= λ rows. ok (record db { snapshot_revisions = rows }))

-- UNIQUE (snapshot_id, kind, pipeline_version)
unfoldable pub insert_generation_run : GenerationRun → Exec Store (Unit {0})
unfolding insert_row
insert_generation_run row db = written db (
    insert_row
      (λ (x : GenerationRun).
        x.id == row.id
        || (x.snapshot_id == row.snapshot_id
            && kind_value x.kind == kind_value row.kind
            && x.pipeline_version == row.pipeline_version))
      true row db.generation_runs
    >>= λ rows. ok (record db { generation_runs = rows }))

-- The job of a snapshot, which must be there.
unfoldable pub insert_snapshot_job : Job → ℕ → Exec Store (Unit {0})
unfolding insert_row
insert_snapshot_job row snapshot_id db = written db (
    insert_row (λ (j : Job). j.id == row.id || j.logical_key == row.logical_key)
      (contains db.queue.snapshots snapshot_id) row db.queue.jobs
    >>= λ rows. ok (record db { queue = record db.queue { jobs = rows } }))
