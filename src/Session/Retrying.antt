-- ===== src/Session/Retrying.antt =====
-- A retry that returned: the session and the snapshot that it found, and what it wrote.
use mathlib.Core.Path.{subst}
use axit_project.Prelude.{
  ℕ, ◌≡◌, refl, sym, ap, ◌∙◌, ◌⊎◌, inl, inr, Bool, true, false, not, List, String, some, ◌==◌,
  length, ok, require, arith, nat_eq, Bool-cases, Option-cases,
}
use axit_project.Errors.{
  session_retry_access_error, session_retry_host_required_error, session_retry_unavailable_error,
}
use axit_project.Database.{update_where, find_by, returned, lift_returned}
use axit_project.Domain.Models.{processing, needs_attention, session_state_eq, GenerationKind}
use axit_project.Domain.Close.{is_empty}
use axit_project.Activity.Ledger.{AuditEvent}
use axit_project.Session.{TalkSession, GenerationSnapshot, Store, hosted_session, update_session}
use axit_project.Session.Close.{latest_snapshot}
use axit_project.Session.Writes.{in_state}
use axit_project.Session.Events.{session_identity}
use axit_project.Session.Retry.{
  RetryDraw, RetrySessionView, retryable_kinds, requeue_kinds, record_requested, record_retrying,
  write_retry, requeue_failures, retry_identity, retry_session, retry_hosted, latest_snapshot_id,
  retried,
}
use axit_project.Session.Closed.{visible}
use axit_project.Session.Quiet.{OnlyEvents, record_session-OnlyEvents}
use axit_project.Session.Steps.{update_session_ok, hosted_session_ok}
use axit_project.Session.Requeue.{Requeued, requeue_kinds_ok}
use axit_project.Session.Rewritten.{Rewritten, requeue_kinds-Rewritten}

-- A retry of a session that needed attention, which returned.
pub record Retries (now : ℕ) (session : TalkSession) (db t : Store) (r : RetrySessionView)
    : Type 0 where
  pub kinds : r.requeued_kinds ≡ retryable_kinds r.snapshot_id db
  pub some_kind : is_empty r.requeued_kinds ≡ false
  pub state : r.state ≡ processing
  pub middle : Store
  pub requeued : Requeued r.snapshot_id (length r.requeued_kinds) db middle
  pub rewritten : Rewritten now r.snapshot_id r.requeued_kinds db middle
  pub moved :
      OnlyEvents
        (record middle {
          talk_sessions =
              update_where (in_state session.id needs_attention) retried middle.talk_sessions;
        })
        t

-- The session that a retry found, and its latest snapshot.
pub record Found (now session_id actor_id : ℕ) (db t : Store) (r : RetrySessionView) : Type 0 where
  pub session : TalkSession
  pub latest : GenerationSnapshot
  pub found : find_by (visible actor_id session_id db) db.talk_sessions ≡ some session
  pub host : (session.host_id == actor_id) ≡ true
  pub is_latest : latest_snapshot session.id db.generation_snapshots ≡ some latest
  pub same_snapshot : r.snapshot_id ≡ latest.id
  pub outcome :
      ((t ≡ db) × (is_empty r.requeued_kinds ≡ true) × ((session.state == processing) ≡ true))
      ⊎ (Retries now session db t r × ((session.state == needs_attention) ≡ true))

module _ (uuid_text decimal_text : ℕ → String) (lower : String → String)
    (satisfies : AuditEvent → Bool) where
  write_retry_ok :
      (drawn : RetryDraw) (actor_id : ℕ) (session : TalkSession) (kinds : List GenerationKind)
      (db t : Store)
      → write_retry uuid_text decimal_text lower satisfies drawn actor_id session kinds db
        ≡ (ok tt, t)
      → OnlyEvents
          (record db {
            talk_sessions =
                update_where (in_state session.id needs_attention) retried db.talk_sessions;
          })
          t
  unfolding write_retry
  write_retry_ok drawn actor_id session kinds db t h =
      let move =
        update_session (in_state session.id needs_attention) retried
          session_retry_unavailable_error in
      let (row, s1, e1, h1) = returned move _ db {t = t} h in
      let requested =
        record_requested uuid_text decimal_text lower satisfies drawn actor_id session
          row.retry_ordinal (length kinds) in
      let (_, s2, e2, h2) = returned requested _ s1 {t = t} h1 in
      let retrying =
        record_retrying uuid_text decimal_text lower satisfies drawn actor_id session
          row.state_version in
      let (_, s3, e3, h3) = returned retrying _ s2 {t = t} h2 in
      let (_, same, _) = update_session_ok _ retried session_retry_unavailable_error db s1 row e1 in
      let first : OnlyEvents s1 s2 = subst (OnlyEvents s1) (ap (λ x. x.1) e2) (
        unfold record_requested in
        record_session-OnlyEvents uuid_text decimal_text lower satisfies drawn.retry_event
          "session.retry_requested"
          (retry_identity uuid_text decimal_text lower satisfies session.id session.generation_epoch
            row.retry_ordinal)
          actor_id session _ s1) in
      let second : OnlyEvents s2 t = subst (OnlyEvents s2) (ap (λ x. x.1) e3 ∙ ap (λ x. x.1) h3) (
        unfold record_retrying in
        record_session-OnlyEvents uuid_text decimal_text lower satisfies drawn.processing_event
          "session.processing"
          (session_identity uuid_text decimal_text lower satisfies session.id row.state_version)
          actor_id session _ s2) in
      (
        second.0,
        second.1
            ∙ ap (λ (u : Store). record u { audit_events = second.0 })
                (first.1 ∙ ap (λ (u : Store). record u { audit_events = first.0 }) same),
      )

  requeue_failures_ok :
      (drawn : RetryDraw) (actor_id : ℕ) (session : TalkSession) (snapshot_id : ℕ) (db t : Store)
      (r : RetrySessionView)
      → requeue_failures uuid_text decimal_text lower satisfies drawn actor_id session snapshot_id
          db
        ≡ (ok r, t)
      → Retries drawn.now session db t r × (r.snapshot_id ≡ snapshot_id)
  unfolding requeue_failures
  requeue_failures_ok drawn actor_id session snapshot_id db t r h =
      let kinds = retryable_kinds snapshot_id db in
      let (_, some_kind, h1) =
        lift_returned (require (not (is_empty kinds)) session_retry_unavailable_error) _ db {t = t}
          h in
      let (_, s, e2, h2) = returned (requeue_kinds drawn.now snapshot_id kinds) _ db {t = t} h1 in
      let (_, s3, e3, h3) =
        returned (write_retry uuid_text decimal_text lower satisfies drawn actor_id session kinds) _
          s {t = t} h2 in
      let done : r
          ≡ record { snapshot_id = snapshot_id; state = processing; requeued_kinds = kinds } =
        ground (arith, h3) in
      subst (λ q. Retries drawn.now session db t q × (q.snapshot_id ≡ snapshot_id)) (sym done)
        (
          record {
            kinds = refl;
            some_kind = ground (arith, some_kind);
            state = refl;
            middle = s;
            requeued = requeue_kinds_ok drawn.now snapshot_id kinds db s e2;
            rewritten = requeue_kinds-Rewritten drawn.now snapshot_id db s e2;
            moved =
                write_retry_ok drawn actor_id session kinds s t
                  (e3 ∙ ap (λ u. (ok tt, u)) (ap (λ x. x.1) h3));
          },
          refl,
        )

  -- The two ways a retry returns.
  retry_session_ok :
      (drawn : RetryDraw) (actor_id : ℕ) (session : TalkSession) (snapshot_id : ℕ) (db t : Store)
      (r : RetrySessionView)
      → retry_session uuid_text decimal_text lower satisfies drawn actor_id session snapshot_id db
        ≡ (ok r, t)
      → (r.snapshot_id ≡ snapshot_id)
        × (((t ≡ db) × (is_empty r.requeued_kinds ≡ true) × ((session.state == processing) ≡ true))
            ⊎ (Retries drawn.now session db t r × ((session.state == needs_attention) ≡ true)))
  unfolding retry_session
  retry_session_ok drawn actor_id session snapshot_id db t r h =
      elim (Bool-cases (session.state == processing)) [
        | inl busy ↦
            (ground (arith, h, busy), inl (ground (arith, h, busy), ground (arith, h, busy), busy))
        | inr other ↦ elim (Bool-cases (session.state == needs_attention)) [
          | inl failed ↦
              let (retries, same) =
                requeue_failures_ok drawn actor_id session snapshot_id db t r
                  (ground (arith, h, other, failed)) in
              (same, inr (retries, failed))
          | inr neither ↦ absurd (ground (arith, h, other, neither))
        ]
      ]

  latest_ok :
      (id : ℕ) (db t : Store) (snapshot_id : ℕ)
      → latest_snapshot_id id db ≡ (ok snapshot_id, t)
      → ((x : GenerationSnapshot) × (latest_snapshot id db.generation_snapshots ≡ some x)
          × (snapshot_id ≡ x.id))
        × (t ≡ db)
  unfolding latest_snapshot_id
  latest_ok id db t snapshot_id h =
      elim (Option-cases (latest_snapshot id db.generation_snapshots)) [
        | inl e ↦ absurd (ground (arith, h, e))
        | inr (x, e) ↦ ((x, e, ground (arith, h, e)), ground (arith, h, e))
      ]

  pub retry_hosted_ok :
      (drawn : RetryDraw) (session_id actor_id : ℕ) (db t : Store) (r : RetrySessionView)
      → retry_hosted uuid_text decimal_text lower satisfies drawn session_id actor_id db ≡ (ok r, t)
      → Found drawn.now session_id actor_id db t r
  unfolding retry_hosted
  retry_hosted_ok drawn session_id actor_id db t r h =
      let hosting =
        hosted_session session_retry_access_error session_retry_host_required_error actor_id
          session_id in
      let (session, s, e1, h1) = returned hosting _ db {t = t} h in
      let (snapshot_id, s2, e2, h2) = returned (latest_snapshot_id session.id) _ s {t = t} h1 in
      let (found, host, same) =
        hosted_session_ok session_retry_access_error session_retry_host_required_error actor_id
          session_id db s session e1 in
      let ((latest, is_latest, named), same') = latest_ok session.id s s2 snapshot_id e2 in
      let (same_snapshot, outcome) = retry_session_ok drawn actor_id session snapshot_id db t r (
        subst
          (λ u.
            retry_session uuid_text decimal_text lower satisfies drawn actor_id session snapshot_id
              u
            ≡ (ok r, t))
          (same' ∙ same) h2) in
      record {
        session = session;
        latest = latest;
        found = found;
        host = host;
        is_latest =
            ap (λ (u : Store). latest_snapshot session.id u.generation_snapshots) (sym same)
            ∙ is_latest;
        same_snapshot = same_snapshot ∙ named;
        outcome = outcome;
      }
