-- ===== src/Session/Sound/Close.antt =====
-- A close keeps the tables sound.
use axit_project.Prelude.{
  ℕ, ◌+◌, ◌≤◌, ◌≡◌, refl, ap, ◌∙◌, true, false, List, [], ◌∷◌, ◌++◌, inl, inr, ◌⊎◌, arith, nat_eq,
  All, All-zip, string_eq,
}
use axit_project.Database.{count_by, update_where}
use axit_project.Database.Rows.{All-update_where}
use axit_project.Database.Sole.{All-sole}
use axit_project.Domain.Models.{open_session, closed, session_state_eq}
use axit_project.Session.{TalkSession, GenerationSnapshot, has_session_id}
use axit_project.Session.Close.{latest_snapshot}
use axit_project.Session.Writes.{in_state, shut, process}
use axit_project.Session.Sound.{IsNumbered, epoch_of}
use axit_project.Session.Sound.Latest.{latest_snapshot-other, latest_snapshot-later}

-- The sessions after the two updates of a close, with its snapshot inserted.
module _ (snapshots : List GenerationSnapshot) (row : GenerationSnapshot) (id epoch now : ℕ)
    (mine : row.session_id ≡ id) (numbered : row.generation_epoch ≡ epoch + 1)
    (current : epoch_of (latest_snapshot id snapshots) ≡ epoch) where
  -- Either another session, or the one that is being closed.
  abbrev Between : TalkSession → Type 0
  Between s =
      ((has_session_id id s ≡ false) × IsNumbered snapshots s) ⊎ ((s.id ≡ id) × (s.state ≡ closed))

  abbrev snapshots_after : List GenerationSnapshot
  snapshots_after = snapshots ++ row ∷ []

  other_kept :
      (s : TalkSession)
      → has_session_id id s ≡ false
      → IsNumbered snapshots s
      → IsNumbered snapshots_after s
  other_kept s h (e, k) =
      (ap epoch_of (latest_snapshot-other s.id snapshots row (ground (arith, h, mine))) ∙ e, k)

  closed-IsNumbered :
      (s : TalkSession) → s.id ≡ id → IsNumbered snapshots_after (process (epoch + 1) s)
  closed-IsNumbered s same = (
    ap epoch_of (
          ap (λ i. latest_snapshot i snapshots_after) same
          ∙ latest_snapshot-later id snapshots row (ground (arith, mine))
              (omega (arith, current, numbered)))
        ∙ numbered,
    λ _. omega arith,
  )

  first_update :
      (s : TalkSession)
      → IsNumbered snapshots s × (has_session_id id s ≡ in_state id open_session s)
      → in_state id open_session s ≡ true
      → Between (shut now s)
  first_update s (n, e) chosen = inr (ground (arith, chosen), refl)

  not_updated :
      (s : TalkSession)
      → IsNumbered snapshots s × (has_session_id id s ≡ in_state id open_session s)
      → in_state id open_session s ≡ false
      → Between s
  not_updated s (n, e) other = inl (e ∙ other, n)

  second_update :
      (s : TalkSession)
      → Between s
      → in_state id closed s ≡ true
      → IsNumbered snapshots_after (process (epoch + 1) s)
  second_update s h chosen = closed-IsNumbered s (ground (arith, chosen))

  second_kept :
      (s : TalkSession) → Between s → in_state id closed s ≡ false → IsNumbered snapshots_after s
  second_kept s (inl (other, n)) skipped = other_kept s other n
  second_kept s (inr (same, shut_now)) skipped = absurd (ground (arith, same, shut_now, skipped))

  pub closed_sessions-IsNumbered :
      (sessions : List TalkSession)
      → count_by (has_session_id id) sessions ≤ 1
      → count_by (in_state id open_session) sessions ≡ 1
      → All (IsNumbered snapshots) sessions
      → All (IsNumbered snapshots_after) (
          update_where
            (in_state id closed)
            (process (epoch + 1))
            (update_where (in_state id open_session) (shut now) sessions))
  closed_sessions-IsNumbered sessions few one all =
      let only =
        All-sole (has_session_id id) (in_state id open_session) (λ s h. ground (arith, h)) sessions
          few one in
      All-update_where Between (IsNumbered snapshots_after) (in_state id closed)
        (process (epoch + 1)) _ second_update second_kept
        (All-update_where _ Between (in_state id open_session) (shut now) sessions first_update
          not_updated (All-zip (IsNumbered snapshots) _ sessions all only))
