-- ===== src/Session/Sound/Retried.antt =====
-- What a retry requeues, and that it keeps the tables sound.
use mathlib.Core.Path.{subst}
use axit_project.Prelude.{
  ℕ, ◌+◌, ◌≡◌, refl, sym, ap, ◌∙◌, ◌⊎◌, inl, inr, Bool, true, false, List, [], ◌∷◌, String, some,
  ◌==◌, map, length, filter_by, ok, arith, nat_eq,
}
use axit_project.Database.{update_where, count_by, find_by, transaction_keeps, transaction_returned}
use axit_project.Database.Rows.{length-filter_by}
use axit_project.Domain.Models.{processing, needs_attention, session_state_eq}
use axit_project.Domain.Close.{is_empty}
use axit_project.Activity.Ledger.{AuditEvent}
use axit_project.Session.{TalkSession, GenerationRun, GenerationSnapshot, Store}
use axit_project.Session.Close.{latest_snapshot}
use axit_project.Session.Writes.{in_state}
use axit_project.Session.Retry.{
  RetryDraw, RetrySessionView, retryable_kinds, retry_hosted, retry, retried,
}
use axit_project.Session.Closed.{visible}
use axit_project.Session.Quiet.{Quiet}
use axit_project.Session.Retrying.{Retries, retry_hosted_ok}
use axit_project.Session.Requeue.{failed_run, failed_job}
use axit_project.Session.Rewritten.{Rewritten}
use axit_project.Session.Sound.{IsSound}
use axit_project.Session.Sound.Moved.{moved_IsSound, Quiet-IsSound}

length-map : {A B : Type 0} (f : A → B) (xs : List A) → length (map f xs) ≡ length xs
length-map f [] = refl
length-map f (x ∷ xs) = ground (arith, length-map f xs)

length-retryable_kinds :
    (snapshot_id : ℕ) (db : Store)
    → length (retryable_kinds snapshot_id db) ≡ count_by (failed_run snapshot_id) db.generation_runs
unfolding retryable_kinds
length-retryable_kinds snapshot_id db =
    length-map (λ (r : GenerationRun). r.kind)
      (filter_by (failed_run snapshot_id) db.generation_runs)
    ∙ length-filter_by (failed_run snapshot_id) db.generation_runs

Retries-IsSound :
    (now : ℕ) (session : TalkSession) (db t : Store) (r : RetrySessionView)
    → Retries now session db t r
    → IsSound db
    → IsSound t
Retries-IsSound now session db t r did h =
    moved_IsSound (in_state session.id needs_attention) retried did.middle t
      (subst
        (Quiet (record did.middle {
          talk_sessions =
              update_where (in_state session.id needs_attention) retried did.middle.talk_sessions;
        }))
        (sym did.moved.1)
        (record { members = refl; sessions = refl; snapshots = refl; queue = λ w. w }))
      (λ s. refl) (λ s n chosen. (n.0, λ _. n.1 (ground (arith, chosen))))
      (Quiet-IsSound db did.middle did.requeued.quiet h)

-- What a retry leaves of the snapshot's failures: each retryable run is queued and each waiting job
-- of the requeued kinds is pending, in as many rows; no run, job or snapshot is added or removed.
pub record Requeues (now : ℕ) (db t : Store) (r : RetrySessionView) : Type 0 where
  pub requested : length r.requeued_kinds ≡ count_by (failed_run r.snapshot_id) db.generation_runs
  pub none_left : count_by (failed_run r.snapshot_id) t.generation_runs ≡ 0
  pub jobs :
      count_by (failed_job r.snapshot_id) t.queue.jobs + length r.requeued_kinds
      ≡ count_by (failed_job r.snapshot_id) db.queue.jobs
  pub rewritten : Rewritten now r.snapshot_id r.requeued_kinds db t
  pub same_runs : length t.generation_runs ≡ length db.generation_runs
  pub same_jobs : length t.queue.jobs ≡ length db.queue.jobs
  pub same_snapshots : t.generation_snapshots ≡ db.generation_snapshots

Retries-Requeues :
    (now : ℕ) (session : TalkSession) (db t : Store) (r : RetrySessionView)
    → Retries now session db t r
    → Requeues now db t r
Retries-Requeues now session db t r did =
    let runs = ap (λ (u : Store). u.generation_runs) did.moved.1 in
    let queue = ap (λ (u : Store). u.queue.jobs) did.moved.1 in
    let requested = ap length did.kinds ∙ length-retryable_kinds r.snapshot_id db in
    record {
      requested = requested;
      none_left = rw runs (omega (arith, requested, did.requeued.runs));
      jobs = rw queue did.requeued.jobs;
      rewritten = record {
        runs_written = runs ∙ did.rewritten.runs_written;
        jobs_written = queue ∙ did.rewritten.jobs_written;
      };
      same_runs = rw runs did.requeued.same_runs;
      same_jobs = rw queue did.requeued.same_jobs;
      same_snapshots =
          ap (λ (u : Store). u.generation_snapshots) did.moved.1 ∙ did.requeued.quiet.snapshots;
    }

module _ (uuid_text decimal_text : ℕ → String) (lower : String → String)
    (satisfies : AuditEvent → Bool) where
  -- A retry, whatever its outcome, keeps the tables sound.
  pub retry-IsSound :
      (drawn : RetryDraw) (session_id actor_id : ℕ) (db : Store)
      → IsSound db
      → IsSound (retry uuid_text decimal_text lower satisfies drawn session_id actor_id db).1
  unfolding retry
  retry-IsSound drawn session_id actor_id db h =
      transaction_keeps IsSound
        (retry_hosted uuid_text decimal_text lower satisfies drawn session_id actor_id) db h
        λ r t ran.
          elim (retry_hosted_ok uuid_text decimal_text lower satisfies drawn session_id actor_id db
            t r ran).outcome [
              | inl (same, _, _) ↦ subst IsSound (sym same) h
              | inr (did, _) ↦ Retries-IsSound drawn.now _ db t r did h
            ]

  -- A retry that returned works on the latest snapshot of a session that the caller hosts. Either
  -- the session was processing, nothing was requeued and nothing was written; or it needed
  -- attention. Then every retryable run of the snapshot is queued, without its error and its time of
  -- completion; every failed job of the snapshot and the requeued kinds that nobody holds is
  -- pending, without its error; there are as many such jobs as such runs; and no other run, job or
  -- snapshot is changed, added or removed.
  pub retry-Requeues :
      (drawn : RetryDraw) (session_id actor_id : ℕ) (db t : Store) (r : RetrySessionView)
      → retry uuid_text decimal_text lower satisfies drawn session_id actor_id db ≡ (ok r, t)
      → (session : TalkSession) × (latest : GenerationSnapshot) × (find_by
            (visible actor_id session_id db)
            db.talk_sessions
          ≡ some session)
        × ((session.host_id == actor_id) ≡ true)
        × (latest_snapshot session.id db.generation_snapshots ≡ some latest)
        × (r.snapshot_id ≡ latest.id)
        × ((((session.state == processing) ≡ true) × (is_empty r.requeued_kinds ≡ true) × (t ≡ db))
            ⊎ (((session.state == needs_attention) ≡ true)
                × (is_empty r.requeued_kinds ≡ false)
                × Requeues drawn.now db t r))
  unfolding retry
  retry-Requeues drawn session_id actor_id db t r h =
      let f =
        retry_hosted_ok uuid_text decimal_text lower satisfies drawn session_id actor_id db t r (
          transaction_returned
            (retry_hosted uuid_text decimal_text lower satisfies drawn session_id actor_id) db
            {t = t} h) in
      (
        f.session,
        f.latest,
        f.found,
        f.host,
        f.is_latest,
        f.same_snapshot,
        elim f.outcome [
          | inl (same, nothing, busy) ↦ inl (busy, nothing, same)
          | inr (did, failed) ↦
              inr (failed, did.some_kind, Retries-Requeues drawn.now f.session db t r did)
        ],
      )
