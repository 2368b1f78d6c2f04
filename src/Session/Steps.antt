-- ===== src/Session/Steps.antt =====
-- The steps that write a session or a snapshot, when they return, and what finds a session again.
use mathlib.Core.Path.{subst}
use axit_project.Prelude.{
  ℕ, ◌≡◌, refl, sym, ap, ◌∙◌, inl, inr, Bool, true, ◌&&◌, List, [], ◌∷◌, ◌++◌, Option, none, some,
  ◌==◌, All, ok, Bool-cases, Option-cases, arith, nat_eq, nat_eqb_iff, if◌then◌else◌,
}
use axit_project.Errors.{Error}
use axit_project.Database.{count_by, update_where, find_by}
use axit_project.Domain.Models.{session_state_eq}
use axit_project.Queue.Invariant.{IsWellFormed}
use axit_project.Session.{
  TalkSession, GenerationSnapshot, Store, hosted_session, update_session, is_member,
}
use axit_project.Session.Rows.{insert_snapshot}
use axit_project.Session.Quiet.{inserted, written_ok}

pub find_by-All {ℓ κ} :
    {A : Type ℓ} (P : A → Type κ) (t : A → Bool) (xs : List A) (x : A)
    → find_by t xs ≡ some x
    → All P xs
    → P x × (t x ≡ true)
unfolding find_by
find_by-All P t [] x h all = absurd (ground (arith, h))
find_by-All {A = A} P t (y ∷ ys) x h all = elim (Bool-cases (t y)) [
  | inl e ↦
      let same : y ≡ x = ground (arith, h, e) in subst (λ z. P z × (t z ≡ true)) same (all.0, e)
  | inr e ↦ find_by-All P t ys x (ground (arith, h, e)) all.1
]

abbrev pub changed : {A : Type 0} → (A → Bool) → (A → A) → A → A
changed t f x = if t x then f x else x

abbrev pub map_option : {A : Type 0} → (A → A) → Option A → Option A
map_option f none = none
map_option f (some x) = some (f x)

-- A search by columns that an update leaves finds the same row, updated.
pub find_by-update_where :
    {A : Type 0} (p t : A → Bool) (f : A → A) (xs : List A)
    → ((x : A) → p (f x) ≡ p x)
    → find_by p (update_where t f xs) ≡ map_option (changed t f) (find_by p xs)
unfolding find_by update_where
find_by-update_where p t f [] h = refl
find_by-update_where p t f (x ∷ xs) h = ground (arith, h x, find_by-update_where p t f xs h)

pub update_session_ok :
    (test : TalkSession → Bool) (change : TalkSession → TalkSession) (e : Error) (db t : Store)
    (row : TalkSession)
    → update_session test change e db ≡ (ok row, t)
    → (count_by test db.talk_sessions ≡ 1)
      × (t ≡ record db { talk_sessions = update_where test change db.talk_sessions })
      × ((found : TalkSession) × (find_by test db.talk_sessions ≡ some found)
          × (row ≡ change found))
unfolding update_session
update_session_ok test change e db t row h =
    elim (Bool-cases (count_by test db.talk_sessions == 1)) [
      | inr other ↦ absurd (ground (arith, h, other))
      | inl one ↦ elim (Option-cases (find_by test db.talk_sessions)) [
        | inl none_found ↦ absurd (ground (arith, h, one, none_found))
        | inr (found, e') ↦ (
          (nat_eqb_iff _ _).0 one,
          ground (arith, h, one, e'),
          (found, e', ground (arith, h, one, e')),
        )
      ]
    ]

pub hosted_session_ok :
    (no_access no_host : Error) (actor_id session_id : ℕ) (db t : Store) (s : TalkSession)
    → hosted_session no_access no_host actor_id session_id db ≡ (ok s, t)
    → (find_by
          (λ (x : TalkSession).
            x.id == session_id && is_member db.room_memberships x.room_id actor_id)
          db.talk_sessions
        ≡ some s)
      × ((s.host_id == actor_id) ≡ true)
      × (t ≡ db)
unfolding hosted_session
hosted_session_ok no_access no_host actor_id session_id db t s h =
    elim (Option-cases (
      find_by
        (λ (x : TalkSession).
          x.id == session_id && is_member db.room_memberships x.room_id actor_id)
        db.talk_sessions)) [
          | inl e ↦ absurd (ground (arith, h, e))
          | inr (x, e) ↦ elim (Bool-cases (x.host_id == actor_id)) [
            | inl host ↦
                (ground (arith, h, e, host), ground (arith, h, e, host), ground (arith, h, e, host))
            | inr other ↦ absurd (ground (arith, h, e, other))
          ]
        ]

pub hosted_session-given :
    (no_access no_host : Error) (actor_id session_id : ℕ) (db : Store) (s : TalkSession)
    → find_by
        (λ (x : TalkSession).
          x.id == session_id && is_member db.room_memberships x.room_id actor_id)
        db.talk_sessions
      ≡ some s
    → (s.host_id == actor_id) ≡ true
    → hosted_session no_access no_host actor_id session_id db ≡ (ok s, db)
unfolding hosted_session
hosted_session-given no_access no_host actor_id session_id db s found host =
    ground (arith, found, host)

pub insert_snapshot_ok :
    (row : GenerationSnapshot) (db t : Store)
    → insert_snapshot row db ≡ (ok tt, t)
    → (t.generation_snapshots ≡ db.generation_snapshots ++ row ∷ [])
      × (t.room_memberships ≡ db.room_memberships)
      × (t.talk_sessions ≡ db.talk_sessions)
      × (IsWellFormed db.queue → IsWellFormed t.queue)
unfolding insert_snapshot
insert_snapshot_ok row db t h =
    let (rows, e, same) =
      written_ok db t _
        (λ rows. record db {
          generation_snapshots = rows;
          queue = record db.queue { snapshots = db.queue.snapshots ++ row.id ∷ [] };
        })
        h in
    (
      ap (λ (s : Store). s.generation_snapshots) same
          ∙ (inserted _ _ row db.generation_snapshots rows e).1,
      ap (λ (s : Store). s.room_memberships) same,
      ap (λ (s : Store). s.talk_sessions) same,
      λ w.
          subst (λ (s : Store). IsWellFormed s.queue) (sym same)
            (record {
              one_row = w.one_row;
              one_key = w.one_key;
              attempts_known = w.attempts_known;
              results_known = w.results_known;
              consistent = w.consistent;
            }),
    )
