-- ===== src/Session/Sound.antt =====
-- What holds of the session tables between two transactions, kept by close, reopen and retry.
pub mod Latest
pub mod Close
pub mod Closed
pub mod Moved
pub mod Retried
pub mod History
use axit_project.Prelude.{ℕ, ◌≤◌, ◌≡◌, Bool, true, false, Option, none, some, List, All}
use axit_project.Database.{count_by}
use axit_project.Domain.Models.{TalkSessionState, draft, open_session}
use axit_project.Queue.Invariant.{IsWellFormed}
use axit_project.Session.{TalkSession, GenerationSnapshot, Store, has_session_id}
use axit_project.Session.Close.{latest_snapshot}

abbrev pub epoch_of : Option GenerationSnapshot → ℕ
epoch_of none = 0
epoch_of (some x) = x.generation_epoch

-- A session that was closed and not reopened.
abbrev pub is_analysed : TalkSessionState → Bool
is_analysed draft = false
is_analysed open_session = false
is_analysed _ = true

-- The epoch of a session is that of its latest snapshot, 0 when it has none, and a session that was
-- closed has one.
abbrev pub IsNumbered : List GenerationSnapshot → TalkSession → Type 0
IsNumbered snapshots s =
    (epoch_of (latest_snapshot s.id snapshots) ≡ s.generation_epoch)
    × (is_analysed s.state ≡ true → 1 ≤ s.generation_epoch)

pub record IsSound (db : Store) : Type 0 where
  pub queue : IsWellFormed db.queue
  pub one_session : (id : ℕ) → count_by (has_session_id id) db.talk_sessions ≤ 1
  pub numbered : All (IsNumbered db.generation_snapshots) db.talk_sessions
