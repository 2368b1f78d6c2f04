-- ===== src/Session/Quiet.antt =====
-- The steps of the session services that leave the memberships, the sessions and the snapshots as
-- they are and keep the queue's tables well-formed, whatever their outcome.
use axit_project.Prelude.{
  ℕ, suc, ◌≡◌, refl, sym, ap, ◌∙◌, Bool, false, ◌||◌, List, [], ◌∷◌, ◌++◌, String, Option, some,
  ◌==◌, any_by, contains, Result, ok, err, arith, string_eq, nat_eq, ◌>>=◌ as bind,
}
use axit_project.Errors.{Error}
use axit_project.Json.{Fields}
use axit_project.Database.{Exec, lift_keeps, then_keeps, ◌>>=◌}
use axit_project.Domain.Models.{GenerationKind, kind_value}
use axit_project.Queue.{Job}
use axit_project.Queue.Enqueue.{new_job}
use axit_project.Queue.Invariant.{IsWellFormed, has_id, has_key}
use axit_project.Queue.Invariant.Enqueue.{new_job-IsConsistent, insert_new-IsWellFormed}
use axit_project.Activity.Keys.{Identity, build_event_key}
use axit_project.Activity.Metadata.{Entries}
use axit_project.Activity.Ledger.{AuditEvent, Drawn}
use axit_project.Session.{TalkSession, SnapshotExclusion, SnapshotRevision, GenerationRun, Store}
use axit_project.Session.Rows.{
  RevisionRow, Pin, insert_row, written, insert_exclusion, insert_snapshot_revision,
  insert_generation_run, insert_snapshot_job,
}
use axit_project.Session.Writes.{
  CloseDraw, CloseExclusionRequest, exclusion_row, revision_row, queued_run, generation_job,
  generation_key, generation_payload, revision_by_id, insert_exclusions, insert_revisions,
  insert_run_and_job,
}
use axit_project.Session.Events.{record_session}

pub record Quiet (before after : Store) : Type 0 where
  pub members : after.room_memberships ≡ before.room_memberships
  pub sessions : after.talk_sessions ≡ before.talk_sessions
  pub snapshots : after.generation_snapshots ≡ before.generation_snapshots
  pub queue : IsWellFormed before.queue → IsWellFormed after.queue

pub Quiet-refl : (db : Store) → Quiet db db
Quiet-refl db = record { members = refl; sessions = refl; snapshots = refl; queue = λ h. h }

pub Quiet-trans : (r s t : Store) → Quiet r s → Quiet s t → Quiet r t
Quiet-trans r s t p q = record {
  members = q.members ∙ p.members;
  sessions = q.sessions ∙ p.sessions;
  snapshots = q.snapshots ∙ p.snapshots;
  queue = λ h. q.queue (p.queue h);
}

-- Two quiet steps in a row.
pub then-Quiet :
    {A B : Type 0} (m : Exec Store A) (f : A → Exec Store B) (db : Store)
    → Quiet db (m db).1
    → ((a : A) (t : Store) → Quiet t (f a t).1)
    → Quiet db ((m >>= f) db).1
then-Quiet m f db first next =
    then_keeps (Quiet db) m f db first λ a t q. Quiet-trans db t (f a t).1 q (next a t)

-- What an INSERT that returned did.
pub inserted :
    {A : Type 0} (clashes : A → Bool) (allowed : Bool) (row : A) (rows grown : List A)
    → insert_row clashes allowed row rows ≡ ok grown
    → (any_by clashes rows ≡ false) × (grown ≡ rows ++ row ∷ [])
unfolding insert_row
inserted clashes allowed row rows grown h = ground (arith, h)

pub written_keeps :
    {A : Type 0} (P : Store → Type 0) (db : Store) (r : Result Error A) (put : A → Store)
    → P db
    → ((a : A) → r ≡ ok a → P (put a))
    → P (written db (bind r (λ a. ok (put a)))).1
written_keeps P db (ok a) put p keeps = keeps a refl
written_keeps P db (err e) put p keeps = p

pub written_ok :
    {A : Type 0} (db t : Store) (r : Result Error A) (put : A → Store)
    → written db (bind r (λ a. ok (put a))) ≡ (ok tt, t)
    → (a : A) × (r ≡ ok a) × (t ≡ put a)
written_ok db t (ok a) put h = (a, refl, sym (ap (λ q. q.1) h))
written_ok db t (err e) put h = absurd (ground arith)

insert_exclusion-Quiet :
    (row : SnapshotExclusion) (db : Store) → Quiet db (insert_exclusion row db).1
unfolding insert_exclusion
insert_exclusion-Quiet row db =
    written_keeps (Quiet db) db _ (λ rows. record db { snapshot_exclusions = rows }) (Quiet-refl db)
      λ rows e. record { members = refl; sessions = refl; snapshots = refl; queue = λ h. h }

insert_snapshot_revision-Quiet :
    (row : SnapshotRevision) (db : Store) → Quiet db (insert_snapshot_revision row db).1
unfolding insert_snapshot_revision
insert_snapshot_revision-Quiet row db =
    written_keeps (Quiet db) db _ (λ rows. record db { snapshot_revisions = rows }) (Quiet-refl db)
      λ rows e. record { members = refl; sessions = refl; snapshots = refl; queue = λ h. h }

insert_generation_run-Quiet :
    (row : GenerationRun) (db : Store) → Quiet db (insert_generation_run row db).1
unfolding insert_generation_run
insert_generation_run-Quiet row db =
    written_keeps (Quiet db) db _ (λ rows. record db { generation_runs = rows }) (Quiet-refl db)
      λ rows e. record { members = refl; sessions = refl; snapshots = refl; queue = λ h. h }

-- The clash test of the jobs covers both keys.
no_clash :
    (row : Job) (jobs : List Job)
    → any_by (λ (j : Job). j.id == row.id || j.logical_key == row.logical_key) jobs ≡ false
    → (any_by (has_id row.id) jobs ≡ false) × (any_by (has_key row.logical_key) jobs ≡ false)
no_clash row [] h = (refl, refl)
no_clash row (j ∷ jobs) h = ground (arith, no_clash row jobs)

insert_snapshot_job-Quiet :
    (job_id now : ℕ) (key kind : String) (payload : Fields) (snapshot : Option ℕ) (snapshot_id : ℕ)
    (db : Store)
    → Quiet db (insert_snapshot_job (new_job job_id now key kind payload snapshot) snapshot_id db).1
unfolding insert_snapshot_job
insert_snapshot_job-Quiet job_id now key kind payload snapshot snapshot_id db =
    written_keeps (Quiet db) db
      (insert_row _ (contains db.queue.snapshots snapshot_id) row db.queue.jobs)
      (λ rows. record db { queue = record db.queue { jobs = rows } }) (Quiet-refl db)
      λ rows e.
        let (free, grown) = inserted _ _ row db.queue.jobs rows e in
        let (new_id, new_key) = no_clash row db.queue.jobs free in
        record {
          members = refl;
          sessions = refl;
          snapshots = refl;
          queue = λ h. rw grown (
              insert_new-IsWellFormed db.queue row h new_id new_key
                (new_job-IsConsistent db.queue job_id now key kind payload snapshot h new_id));
        }
  where
    row : Job
    row = new_job job_id now key kind payload snapshot

-- A store that differs in the ledger alone.
abbrev pub OnlyEvents : Store → Store → Type 0
OnlyEvents before after =
    (events : List AuditEvent) × (after ≡ record before { audit_events = events })

pub record_session-OnlyEvents :
    (uuid_text decimal_text : ℕ → String) (lower : String → String) (satisfies : AuditEvent → Bool)
    (drawn : Drawn) (event_type : String) (identity : Identity) (actor_id : ℕ)
    (session : TalkSession) (metadata : Entries) (db : Store)
    → OnlyEvents db
        (record_session uuid_text decimal_text lower satisfies drawn event_type identity actor_id
          session metadata db).1
unfolding record_session
record_session-OnlyEvents uuid_text decimal_text lower satisfies drawn event_type identity actor_id
      session metadata db =
    lift_keeps (OnlyEvents db) (build_event_key event_type identity false) _ db
      (db.audit_events, refl) λ key e. (_, refl)

pub record_session-Quiet :
    (uuid_text decimal_text : ℕ → String) (lower : String → String) (satisfies : AuditEvent → Bool)
    (drawn : Drawn) (event_type : String) (identity : Identity) (actor_id : ℕ)
    (session : TalkSession) (metadata : Entries) (db : Store)
    → Quiet db
        (record_session uuid_text decimal_text lower satisfies drawn event_type identity actor_id
          session metadata db).1
unfolding record_session
record_session-Quiet uuid_text decimal_text lower satisfies drawn event_type identity actor_id
      session metadata db =
    lift_keeps (Quiet db) (build_event_key event_type identity false) _ db (Quiet-refl db)
      λ key e. record { members = refl; sessions = refl; snapshots = refl; queue = λ h. h }

pub insert_exclusions-Quiet :
    (uuid_text : ℕ → String) (drawn : ℕ → ℕ) (index session_id actor_id : ℕ)
    (rows : List RevisionRow) (items : List CloseExclusionRequest) (db : Store)
    → Quiet db (insert_exclusions uuid_text drawn index session_id actor_id rows items db).1
unfolding insert_exclusions
insert_exclusions-Quiet uuid_text drawn index session_id actor_id rows [] db = Quiet-refl db
insert_exclusions-Quiet uuid_text drawn index session_id actor_id rows (item ∷ rest) db =
    lift_keeps (Quiet db) (revision_by_id uuid_text rows (uuid_text item.revision_id)) _ db
      (Quiet-refl db)
      λ id e.
        let row = exclusion_row uuid_text (drawn index) session_id actor_id id item.reason in
        then-Quiet (insert_exclusion row)
          (λ _. insert_exclusions uuid_text drawn (suc index) session_id actor_id rows rest) db
          (insert_exclusion-Quiet row db)
          λ _ t. insert_exclusions-Quiet uuid_text drawn (suc index) session_id actor_id rows rest t

pub insert_revisions-Quiet :
    (snapshot_id : ℕ) (pins : List Pin) (db : Store)
    → Quiet db (insert_revisions snapshot_id pins db).1
unfolding insert_revisions
insert_revisions-Quiet snapshot_id [] db = Quiet-refl db
insert_revisions-Quiet snapshot_id (pin ∷ rest) db =
    then-Quiet (insert_snapshot_revision (revision_row snapshot_id pin))
      (λ _. insert_revisions snapshot_id rest) db (insert_snapshot_revision-Quiet _ db)
      λ _ t. insert_revisions-Quiet snapshot_id rest t

pub insert_run_and_job-Quiet :
    (uuid_text : ℕ → String) (drawn : CloseDraw) (pipeline_version : String) (kind : GenerationKind)
    (db : Store)
    → Quiet db (insert_run_and_job uuid_text drawn pipeline_version kind db).1
unfolding insert_run_and_job
insert_run_and_job-Quiet uuid_text drawn pipeline_version kind db =
    then-Quiet (insert_generation_run (queued_run drawn pipeline_version kind))
      (λ _.
        insert_snapshot_job (generation_job uuid_text drawn pipeline_version kind)
          drawn.snapshot_id)
      db (insert_generation_run-Quiet _ db)
      λ _ t.
        insert_snapshot_job-Quiet (drawn.run_of kind).job_id drawn.now
          (generation_key uuid_text drawn pipeline_version kind) (kind_value kind)
          (generation_payload uuid_text drawn pipeline_version kind) (some drawn.snapshot_id)
          drawn.snapshot_id t
