-- ===== src/Session/Sound/Moved.antt =====
-- A reopen keeps the tables sound.
use mathlib.Core.Path.{subst}
use axit_project.Prelude.{
  ℕ, ◌≤◌, ◌≡◌, refl, sym, ap, ◌∙◌, ◌⊎◌, inl, inr, Bool, true, ◌||◌, String, ◌==◌, ok, arith, nat_eq,
  Bool-cases,
}
use axit_project.Errors.{session_state_error, session_access_error, session_host_required_error}
use axit_project.Database.{update_where, count_by, returned, transaction_keeps}
use axit_project.Database.Rows.{count_by-update_where, All-update_where}
use axit_project.Domain.Models.{
  TalkSessionState, open_session, needs_attention, ready, session_state_eq,
}
use axit_project.Activity.Ledger.{AuditEvent, Drawn}
use axit_project.Session.{TalkSession, Store, has_session_id, hosted_session, update_session}
use axit_project.Session.Writes.{in_state}
use axit_project.Session.Events.{session_identity}
use axit_project.Session.Reopen.{
  reopen_analyzed, record_reopened, reopen_session, reopen_hosted, reopen, reopened,
}
use axit_project.Session.Quiet.{Quiet, record_session-Quiet}
use axit_project.Session.Closing.{ends_at}
use axit_project.Session.Steps.{update_session_ok, hosted_session_ok}
use axit_project.Session.Sound.{IsSound, IsNumbered}

-- An update of sessions that leaves their identifiers and keeps their numbering.
pub moved_IsSound :
    (test : TalkSession → Bool) (change : TalkSession → TalkSession) (db t : Store)
    → Quiet (record db { talk_sessions = update_where test change db.talk_sessions }) t
    → ((s : TalkSession) → (change s).id ≡ s.id)
    → ((s : TalkSession)
        → IsNumbered db.generation_snapshots s
        → test s ≡ true
        → IsNumbered db.generation_snapshots (change s))
    → IsSound db
    → IsSound t
moved_IsSound test change db t q same keeps h = record {
  queue = q.queue h.queue;
  one_session = λ id.
      subst (λ n. n ≤ 1)
        (sym (
          ap (count_by (has_session_id id)) q.sessions
          ∙ count_by-update_where (has_session_id id) test change db.talk_sessions
              (λ s. ap (λ i. i == id) (same s))))
        (h.one_session id);
  numbered =
      rw (q.sessions, q.snapshots)
        (All-update_where _ _ test change db.talk_sessions keeps (λ s n e. n) h.numbered);
}

pub Quiet-IsSound : (db t : Store) → Quiet db t → IsSound db → IsSound t
Quiet-IsSound db t q h = record {
  queue = q.queue h.queue;
  one_session = λ id. rw q.sessions (h.one_session id);
  numbered = rw (q.sessions, q.snapshots) h.numbered;
}

module _ (uuid_text decimal_text : ℕ → String) (lower : String → String)
    (satisfies : AuditEvent → Bool) where
  reopen_analyzed_ok :
      (drawn : Drawn) (actor_id : ℕ) (session : TalkSession) (db t : Store) (r : TalkSessionState)
      → reopen_analyzed uuid_text decimal_text lower satisfies drawn actor_id session db ≡ (ok r, t)
      → Quiet
          (record db {
            talk_sessions =
                update_where (in_state session.id session.state) reopened db.talk_sessions;
          })
          t
  unfolding reopen_analyzed
  reopen_analyzed_ok drawn actor_id session db t r h =
      let move = update_session (in_state session.id session.state) reopened session_state_error in
      let (row, s1, e1, h1) = returned move _ db {t = t} h in
      let event =
        record_reopened uuid_text decimal_text lower satisfies drawn actor_id session
          row.state_version in
      let (_, s2, e2, h2) = returned event _ s1 {t = t} h1 in
      let (_, same, _) = update_session_ok _ reopened session_state_error db s1 row e1 in
      let quiet = ends_at event s1 s2 _ e2 (
        unfold record_reopened in
        record_session-Quiet uuid_text decimal_text lower satisfies drawn "session.reopened"
          (session_identity uuid_text decimal_text lower satisfies session.id row.state_version)
          actor_id session _ s1) in
      subst (λ u. Quiet u t) same (subst (Quiet s1) (ap (λ x. x.1) h2) quiet)

  reopen_session_ok :
      (drawn : Drawn) (actor_id : ℕ) (session : TalkSession) (db t : Store) (r : TalkSessionState)
      → reopen_session uuid_text decimal_text lower satisfies drawn actor_id session db ≡ (ok r, t)
      → (t ≡ db)
        ⊎ Quiet
            (record db {
              talk_sessions =
                  update_where (in_state session.id session.state) reopened db.talk_sessions;
            })
            t
  unfolding reopen_session
  reopen_session_ok drawn actor_id session db t r h =
      elim (Bool-cases (session.state == open_session)) [
        | inl is_open ↦ inl (ground (arith, h, is_open))
        | inr other ↦
            elim (Bool-cases (session.state == ready || session.state == needs_attention)) [
              | inl analyzed ↦ inr (
                  reopen_analyzed_ok drawn actor_id session db t r
                    (ground (arith, h, other, analyzed)))
              | inr neither ↦ absurd (ground (arith, h, other, neither))
            ]
      ]

  reopened_IsSound :
      (drawn : Drawn) (session_id actor_id : ℕ) (db t : Store) (r : TalkSessionState)
      → reopen_hosted uuid_text decimal_text lower satisfies drawn session_id actor_id db
        ≡ (ok r, t)
      → IsSound db
      → IsSound t
  unfolding reopen_hosted
  reopened_IsSound drawn session_id actor_id db t r h sound =
      let hosting =
        hosted_session session_access_error session_host_required_error actor_id session_id in
      let (session, s, e, h1) = returned hosting _ db {t = t} h in
      let (_, _, same) =
        hosted_session_ok session_access_error session_host_required_error actor_id session_id db s
          session e in
      let sound_s = subst IsSound (sym same) sound in
      elim (reopen_session_ok drawn actor_id session s t r h1) [
        | inl unchanged ↦ subst IsSound (sym unchanged) sound_s
        | inr quiet ↦
            moved_IsSound (in_state session.id session.state) reopened s t quiet (λ x. refl)
              (λ x n chosen. (n.0, λ impossible. absurd (ground (arith, impossible)))) sound_s
      ]

  -- A reopen, whatever its outcome, keeps the tables sound.
  pub reopen-IsSound :
      (drawn : Drawn) (session_id actor_id : ℕ) (db : Store)
      → IsSound db
      → IsSound (reopen uuid_text decimal_text lower satisfies drawn session_id actor_id db).1
  unfolding reopen
  reopen-IsSound drawn session_id actor_id db h =
      transaction_keeps IsSound
        (reopen_hosted uuid_text decimal_text lower satisfies drawn session_id actor_id) db h
        λ r t ran. reopened_IsSound drawn session_id actor_id db t r ran h
