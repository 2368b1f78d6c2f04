-- ===== src/Session/Sound/Closed.antt =====
-- A close as a whole: it keeps the tables sound, and a second one finds what the first left.
use mathlib.Core.Path.{subst}
use axit_project.Prelude.{
  ℕ, ◌+◌, ◌≤◌, ◌≡◌, refl, sym, ap, ◌∙◌, inl, inr, Bool, true, false, ◌||◌, List, String, Option,
  some, ◌==◌, ok, arith, nat_eq, Bool-cases, Option-cases, beq_refl,
}
use axit_project.Database.{Exec, lift_keeps, transaction_keeps, update_where, find_by, count_by}
use axit_project.Database.Rows.{count_by-update_where}
use axit_project.Domain.Models.{
  TalkSessionState, draft, open_session, closed, processing, session_state_eq,
}
use axit_project.Activity.Ledger.{AuditEvent}
use axit_project.Session.{TalkSession, Store, has_session_id}
use axit_project.Session.Rows.{Pinned}
use axit_project.Session.Close.{
  existing_snapshot_or_raise, close, close_hosted, close_exclusions, latest_snapshot,
}
use axit_project.Session.Writes.{
  CloseDraw, CloseExclusionRequest, ClosedSnapshot, new_snapshot, in_state, shut, process,
  snapshot_row,
}
use axit_project.Session.Closing.{Closes}
use axit_project.Session.Closed.{
  visible, Returned, close_ok, close_hosted_ok, close-existing, named, anchored,
}
use axit_project.Session.Steps.{find_by-All, find_by-update_where, changed, map_option}
use axit_project.Session.Sound.{IsSound, IsNumbered, epoch_of}
use axit_project.Session.Sound.Latest.{latest_snapshot-later}
use axit_project.Session.Sound.Close.{closed_sessions-IsNumbered}

existing_ok :
    (id : ℕ) (state : TalkSessionState) (db t : Store) (r : ClosedSnapshot)
    → existing_snapshot_or_raise id state db ≡ (ok r, t)
    → (t ≡ db) × (r.idempotent ≡ true)
unfolding existing_snapshot_or_raise
existing_ok id state db t r h = elim (Bool-cases (state == draft || state == open_session)) [
  | inl refused ↦ absurd (ground (arith, h, refused))
  | inr other ↦ elim (Option-cases (latest_snapshot id db.generation_snapshots)) [
    | inl e ↦ absurd (ground (arith, h, other, e))
    | inr (x, e) ↦ (ground (arith, h, other, e), ground (arith, h, other, e))
  ]
]

-- The found session has the epoch of its latest snapshot.
found_numbered :
    (db : Store) (test : TalkSession → Bool) (s : TalkSession)
    → IsSound db
    → find_by test db.talk_sessions ≡ some s
    → epoch_of (latest_snapshot s.id db.generation_snapshots) ≡ s.generation_epoch
found_numbered db test s h found =
    (find_by-All (IsNumbered db.generation_snapshots) test db.talk_sessions s found h.numbered).0.0

Closes-IsSound :
    (drawn : CloseDraw) (actor_id : ℕ) (session : TalkSession) (pipeline_version : String)
    (pinned : Pinned) (db t : Store)
    → Closes drawn actor_id session pipeline_version pinned db t
    → epoch_of (latest_snapshot session.id db.generation_snapshots) ≡ session.generation_epoch
    → IsSound db
    → IsSound t
Closes-IsSound drawn actor_id session pipeline_version pinned db t c current h = record {
  queue = c.queue h.queue;
  one_session = λ id.
      subst (λ n. n ≤ 1)
        (sym (
          ap (count_by (has_session_id id)) c.sessions
          ∙ count_by-update_where (has_session_id id) (in_state session.id closed)
              (process (session.generation_epoch + 1)) _ (λ s. refl)
          ∙ count_by-update_where (has_session_id id) (in_state session.id open_session)
              (shut drawn.now) db.talk_sessions (λ s. refl)))
        (h.one_session id);
  numbered =
      rw (c.sessions, c.snapshots)
        (closed_sessions-IsNumbered db.generation_snapshots
          (snapshot_row drawn actor_id session pipeline_version pinned) session.id
          session.generation_epoch drawn.now refl refl current db.talk_sessions
          (h.one_session session.id) c.one h.numbered);
}

module _ (uuid_text decimal_text : ℕ → String) (lower : String → String)
    (satisfies : AuditEvent → Bool) (session_id actor_id : ℕ)
    (exclusions : List CloseExclusionRequest) (pipeline_version : String)
    (anchor_schema_version : Option String) where
  abbrev closing : CloseDraw → Exec Store ClosedSnapshot
  closing drawn =
      close uuid_text decimal_text lower satisfies drawn session_id actor_id exclusions
        pipeline_version anchor_schema_version

  abbrev Did : CloseDraw → Store → Store → ClosedSnapshot → Type 0
  Did drawn db t r =
      Returned uuid_text decimal_text lower satisfies drawn session_id actor_id exclusions
        pipeline_version anchor_schema_version db t r

  returned-IsSound :
      (drawn : CloseDraw) (db t : Store) (r : ClosedSnapshot)
      → IsSound db
      → Did drawn db t r
      → IsSound t
  returned-IsSound drawn db t r h did = elim did.did [
    | inl (_, ((pinned, closes), _)) ↦
        Closes-IsSound drawn actor_id did.session pipeline_version pinned db t closes
          (found_numbered db _ did.session h did.found) h
    | inr (_, existing) ↦
        subst IsSound (sym (existing_ok did.session.id did.session.state db t r existing).0) h
  ]

  -- A close, whatever its outcome, keeps the tables sound: the queue well-formed, one row for a
  -- session, its epoch that of its latest snapshot, and a snapshot for every session that was
  -- closed.
  pub close-IsSound : (drawn : CloseDraw) (db : Store) → IsSound db → IsSound (closing drawn db).1
  unfolding close
  close-IsSound drawn db h = lift_keeps IsSound (named pipeline_version) _ db h λ _ _.
      lift_keeps IsSound (anchored anchor_schema_version) _ db h λ _ _.
        lift_keeps IsSound (close_exclusions uuid_text decimal_text lower satisfies exclusions) _ db
          h
          λ excluded _.
            transaction_keeps IsSound
              (close_hosted uuid_text decimal_text lower satisfies drawn session_id actor_id
                exclusions excluded pipeline_version anchor_schema_version)
              db h
              λ r t ran. returned-IsSound drawn db t r h (
                close_hosted_ok uuid_text decimal_text lower satisfies drawn session_id actor_id
                  exclusions pipeline_version anchor_schema_version excluded db t r ran)

  close-again_existing :
      (first second : CloseDraw) (db t : Store) (r : ClosedSnapshot) (s : TalkSession)
      → find_by (visible actor_id session_id db) db.talk_sessions ≡ some s
      → (s.host_id == actor_id) ≡ true
      → (s.state == open_session) ≡ false
      → existing_snapshot_or_raise s.id s.state db ≡ (ok r, t)
      → closing first db ≡ (ok r, t)
      → closing second t ≡ (ok (record r { idempotent = true }), t)
  close-again_existing first second db t r s found host other existing h =
      let (same, idempotent) = existing_ok s.id s.state db t r existing in
      let (e1, e2, (excluded, e3), _) =
        close_ok uuid_text decimal_text lower satisfies first session_id actor_id exclusions
          pipeline_version anchor_schema_version db t r h in
      let base =
        close-existing uuid_text decimal_text lower satisfies second session_id actor_id exclusions
          pipeline_version anchor_schema_version db s r excluded e1 e2 e3 found host other
          (subst (λ u. existing_snapshot_or_raise s.id s.state db ≡ (ok r, u)) same existing) in
      subst (λ u. closing second u ≡ (ok (record r { idempotent = true }), u)) (sym same)
        (subst (λ b. closing second db ≡ (ok (record r { idempotent = b }), db)) idempotent base)

  -- The session that was closed, found again.
  found_again :
      (drawn : CloseDraw) (session : TalkSession) (pinned : Pinned) (db t : Store)
      → Closes drawn actor_id session pipeline_version pinned db t
      → find_by (visible actor_id session_id db) db.talk_sessions ≡ some session
      → (session.state == open_session) ≡ true
      → find_by (visible actor_id session_id t) t.talk_sessions
        ≡ some (process (session.generation_epoch + 1) (shut drawn.now session))
  found_again drawn session pinned db t c found is_open =
      let test = visible actor_id session_id db in
      let to_closed = in_state session.id open_session in
      let to_processing = in_state session.id closed in
      let epoch = session.generation_epoch + 1 in
      let first =
        find_by-update_where test to_closed (shut drawn.now) db.talk_sessions (λ s. refl)
        ∙ ap (map_option (changed to_closed (shut drawn.now))) found in
      let second =
        find_by-update_where test to_processing (process epoch)
          (update_where to_closed (shut drawn.now) db.talk_sessions) (λ s. refl)
        ∙ ap (map_option (changed to_processing (process epoch))) first in
      rw (c.members, c.sessions) (second ∙ ground (arith, is_open, beq_refl session.id))

  snapshot_again :
      (drawn : CloseDraw) (session : TalkSession) (pinned : Pinned) (db t : Store)
      → Closes drawn actor_id session pipeline_version pinned db t
      → epoch_of (latest_snapshot session.id db.generation_snapshots) ≡ session.generation_epoch
      → existing_snapshot_or_raise session.id processing t
        ≡ (ok (record (new_snapshot drawn session) { idempotent = true }), t)
  unfolding existing_snapshot_or_raise
  snapshot_again drawn session pinned db t c current =
      let latest : latest_snapshot session.id t.generation_snapshots
          ≡ some (snapshot_row drawn actor_id session pipeline_version pinned) =
        rw c.snapshots (
          latest_snapshot-later session.id db.generation_snapshots
            (snapshot_row drawn actor_id session pipeline_version pinned) (beq_refl session.id)
            (omega (arith, current))) in
      rw latest refl

  -- A close that returned is idempotent: on sound tables, the same call after it, with other draws,
  -- returns the same snapshot, epoch and state, marked as idempotent, and writes nothing.
  pub close-again :
      (first second : CloseDraw) (db t : Store) (r : ClosedSnapshot)
      → IsSound db
      → closing first db ≡ (ok r, t)
      → closing second t ≡ (ok (record r { idempotent = true }), t)
  close-again first second db t r sound h =
      let (e1, e2, (excluded, e3), did) =
        close_ok uuid_text decimal_text lower satisfies first session_id actor_id exclusions
          pipeline_version anchor_schema_version db t r h in
      elim did.did [
        | inr (other, existing) ↦
            close-again_existing first second db t r did.session did.found did.host other existing h
        | inl (is_open, ((pinned, c), same)) ↦
            let after = process (did.session.generation_epoch + 1) (shut first.now did.session) in
            subst (λ q. closing second t ≡ (ok (record q { idempotent = true }), t)) (sym same)
              (close-existing uuid_text decimal_text lower satisfies second session_id actor_id
                exclusions pipeline_version anchor_schema_version t after
                (record (new_snapshot first did.session) { idempotent = true }) excluded e1 e2 e3
                (found_again first did.session pinned db t c did.found is_open) did.host refl
                (snapshot_again first did.session pinned db t c
                  (found_numbered db _ did.session sound did.found)))
      ]
