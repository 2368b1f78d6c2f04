-- ===== src/Session/Closed.antt =====
-- A close that returned: the session it found, and what it wrote or read.
use axit_project.Prelude.{
  ℕ, ◌+◌, ◌≡◌, refl, sym, ap, ◌∙◌, ◌⊎◌, inl, inr, Bool, true, false, not, ◌&&◌, List, [], ◌∷◌, ◌++◌,
  String, Option, none, some, ◌==◌, Result, ok, require, traverse, is_blank, arith, nat_eq,
  Bool-cases, if◌then◌else◌,
}
use axit_project.Errors.{Error, value_error, session_access_error, session_host_required_error}
use axit_project.Database.{
  count_by, update_where, find_by, returned, lift_returned, transaction_returned,
}
use axit_project.Domain.Models.{open_session, closed, session_state_eq}
use axit_project.Domain.Models.Records.{CloseExclusion, new_revision_status}
use axit_project.Domain.Close.{require_close_eligibility}
use axit_project.Activity.Ledger.{AuditEvent}
use axit_project.Session.{TalkSession, Store, hosted_session, is_member}
use axit_project.Session.Rows.{current_rows, Pinned, pin_revisions}
use axit_project.Session.Close.{
  close_open, existing_snapshot_or_raise, close_hosted, close_exclusions, close,
}
use axit_project.Session.Writes.{
  CloseDraw, CloseExclusionRequest, ClosedSnapshot, new_snapshot, revision_text, revision_by_id,
  insert_exclusions, in_state, shut, process, snapshot_row,
}
use axit_project.Session.Quiet.{Quiet, insert_exclusions-Quiet}
use axit_project.Session.Steps.{hosted_session_ok, hosted_session-given}
use axit_project.Session.Closing.{Closes, ends_at, write_close_ok}

-- The checks of the two texts.
abbrev pub named : String → Result Error (Unit {0})
named pipeline_version = require (not (is_blank pipeline_version)) value_error

abbrev pub anchored : Option String → Result Error (Unit {0})
anchored anchor_schema_version =
    require (elim anchor_schema_version [ none ↦ true | some asked ↦ not (is_blank asked) ])
      value_error

-- The session of this identifier, when the actor is a current member of its room.
abbrev pub visible : ℕ → ℕ → Store → TalkSession → Bool
visible actor_id session_id db s =
    s.id == session_id && is_member db.room_memberships s.room_id actor_id

Quiet-Closes :
    (drawn : CloseDraw) (actor_id : ℕ) (session : TalkSession) (pipeline_version : String)
    (pinned : Pinned) (r s t : Store)
    → Quiet r s
    → Closes drawn actor_id session pipeline_version pinned s t
    → Closes drawn actor_id session pipeline_version pinned r t
Quiet-Closes drawn actor_id session pipeline_version pinned r s t q c = record {
  members = c.members ∙ q.members;
  one = ap (count_by (in_state session.id open_session)) (sym q.sessions) ∙ c.one;
  sessions =
      c.sessions
      ∙ ap
          (λ l.
            update_where (in_state session.id closed) (process (session.generation_epoch + 1))
              (update_where (in_state session.id open_session) (shut drawn.now) l))
          q.sessions;
  snapshots =
      c.snapshots
      ∙ ap (λ l. l ++ snapshot_row drawn actor_id session pipeline_version pinned ∷ []) q.snapshots;
  queue = λ h. c.queue (q.queue h);
}

module _ (uuid_text decimal_text : ℕ → String) (lower : String → String)
    (satisfies : AuditEvent → Bool) (drawn : CloseDraw) (session_id actor_id : ℕ)
    (exclusions : List CloseExclusionRequest) (pipeline_version : String)
    (anchor_schema_version : Option String) where
  abbrev pub Wrote : Store → Store → TalkSession → ClosedSnapshot → Type 0
  Wrote db t session r =
      ((pinned : Pinned) × Closes drawn actor_id session pipeline_version pinned db t)
      × (r ≡ new_snapshot drawn session)

  close_open_ok :
      (session : TalkSession) (excluded : List CloseExclusion) (db t : Store) (r : ClosedSnapshot)
      → close_open uuid_text decimal_text lower satisfies drawn actor_id session exclusions excluded
          pipeline_version anchor_schema_version db
        ≡ (ok r, t)
      → Wrote db t session r
  unfolding close_open
  close_open_ok session excluded db t r h =
      let rows = current_rows session.id db in
      let (current, _, h1) =
        lift_returned
          (traverse (λ row. new_revision_status (revision_text uuid_text row) row.processing_state)
            rows)
          _ db {t = t} h in
      let (eligibility, _, h2) =
        lift_returned (require_close_eligibility current excluded) _ db {t = t} h1 in
      let insert =
        insert_exclusions uuid_text drawn.exclusion_id 0 session.id actor_id rows exclusions in
      let (_, s, e, h3) = returned insert _ db {t = t} h2 in
      let (included, _, h4) =
        lift_returned (traverse (revision_by_id uuid_text rows) eligibility.included_revision_ids) _
          s {t = t} h3 in
      let (pinned, _, h5) =
        lift_returned (pin_revisions uuid_text rows included anchor_schema_version) _ s {t = t}
          h4 in
      let (closes, same) =
        write_close_ok uuid_text decimal_text lower satisfies drawn actor_id session
          pipeline_version pinned s t r h5 in
      let quiet = ends_at insert db s _ e (
        insert_exclusions-Quiet uuid_text drawn.exclusion_id 0 session.id actor_id rows exclusions
          db) in
      (
        (pinned, Quiet-Closes drawn actor_id session pipeline_version pinned db s t quiet closes),
        same,
      )

  -- What the call as a whole did.
  pub record Returned (db t : Store) (r : ClosedSnapshot) : Type 0 where
    pub session : TalkSession
    pub found : find_by (visible actor_id session_id db) db.talk_sessions ≡ some session
    pub host : (session.host_id == actor_id) ≡ true
    pub did :
        (((session.state == open_session) ≡ true) × Wrote db t session r)
        ⊎ (((session.state == open_session) ≡ false)
            × (existing_snapshot_or_raise session.id session.state db ≡ (ok r, t)))

  pub close_hosted_ok :
      (excluded : List CloseExclusion) (db t : Store) (r : ClosedSnapshot)
      → close_hosted uuid_text decimal_text lower satisfies drawn session_id actor_id exclusions
          excluded pipeline_version anchor_schema_version db
        ≡ (ok r, t)
      → Returned db t r
  unfolding close_hosted
  close_hosted_ok excluded db t r h =
      let (session, s, e, h1) =
        returned
          (hosted_session session_access_error session_host_required_error actor_id session_id) _ db
          {t = t} h in
      let (found, host, same) =
        hosted_session_ok session_access_error session_host_required_error actor_id session_id db s
          session e in
      record { session = session; found = found; host = host; did = branch session s same h1 }
    where
      branch :
          (session : TalkSession) (s : Store)
          → s ≡ db
          → (if session.state == open_session
                then close_open uuid_text decimal_text lower satisfies drawn actor_id session
                    exclusions excluded pipeline_version anchor_schema_version
                else existing_snapshot_or_raise session.id session.state)
              s
            ≡ (ok r, t)
          → (((session.state == open_session) ≡ true) × Wrote db t session r)
            ⊎ (((session.state == open_session) ≡ false)
                × (existing_snapshot_or_raise session.id session.state db ≡ (ok r, t)))
      branch session s same h1 = elim (Bool-cases (session.state == open_session)) [
        | inl is_open ↦ inl (
          is_open,
          close_open_ok session excluded db t r (rw (sym same) (ground (arith, h1, is_open))),
        )
        | inr other ↦ inr (other, rw (sym same) (ground (arith, h1, other)))
      ]

  -- The checks of the arguments passed, and so did the transaction.
  pub close_ok :
      (db t : Store) (r : ClosedSnapshot)
      → close uuid_text decimal_text lower satisfies drawn session_id actor_id exclusions
          pipeline_version anchor_schema_version db
        ≡ (ok r, t)
      → (named pipeline_version ≡ ok tt)
        × (anchored anchor_schema_version ≡ ok tt)
        × ((excluded : List CloseExclusion) × (close_exclusions uuid_text decimal_text lower
                satisfies exclusions
              ≡ ok excluded))
        × Returned db t r
  unfolding close
  close_ok db t r h =
      let (_, e1, h1) = lift_returned (named pipeline_version) _ db {t = t} h in
      let (_, e2, h2) = lift_returned (anchored anchor_schema_version) _ db {t = t} h1 in
      let (excluded, e3, h3) =
        lift_returned (close_exclusions uuid_text decimal_text lower satisfies exclusions) _ db
          {t = t} h2 in
      (
        e1,
        e2,
        (excluded, e3),
        close_hosted_ok excluded db t r (
            transaction_returned
              (close_hosted uuid_text decimal_text lower satisfies drawn session_id actor_id
                exclusions excluded pipeline_version anchor_schema_version)
              db {t = t} h3),
      )

  -- A close on arguments that pass the checks, of a session whose snapshot is there.
  pub close-existing :
      (db : Store) (s : TalkSession) (r : ClosedSnapshot) (excluded : List CloseExclusion)
      → named pipeline_version ≡ ok tt
      → anchored anchor_schema_version ≡ ok tt
      → close_exclusions uuid_text decimal_text lower satisfies exclusions ≡ ok excluded
      → find_by (visible actor_id session_id db) db.talk_sessions ≡ some s
      → (s.host_id == actor_id) ≡ true
      → (s.state == open_session) ≡ false
      → existing_snapshot_or_raise s.id s.state db ≡ (ok r, db)
      → close uuid_text decimal_text lower satisfies drawn session_id actor_id exclusions
          pipeline_version anchor_schema_version db
        ≡ (ok r, db)
  unfolding close close_hosted
  close-existing db s r excluded e1 e2 e3 found host other existing =
      let hosted =
        hosted_session-given session_access_error session_host_required_error actor_id session_id db
          s found host in
      rw (e1, e2, e3) (rw hosted (rw other (rw existing refl)))
