-- ===== src/Session/Sound/Latest.antt =====
-- The latest snapshot of a session when one more is inserted.
use axit_project.Prelude.{
  ℕ, ◌≤◌, ◌<◌, ◌≡◌, true, false, List, [], ◌∷◌, ◌++◌, some, ◌==◌, inl, inr, Option-cases,
  Bool-cases, arith, nat_eq,
}
use axit_project.Session.{GenerationSnapshot}
use axit_project.Session.Close.{latest_snapshot}
use axit_project.Session.Sound.{epoch_of}

pub latest_snapshot-other :
    (id : ℕ) (xs : List GenerationSnapshot) (row : GenerationSnapshot)
    → (row.session_id == id) ≡ false
    → latest_snapshot id (xs ++ row ∷ []) ≡ latest_snapshot id xs
unfolding latest_snapshot
latest_snapshot-other id [] row h = ground (arith, h)
latest_snapshot-other id (x ∷ xs) row h = ground (arith, latest_snapshot-other id xs row h)

-- A snapshot is not later than the latest.
tail_below :
    (id : ℕ) (x : GenerationSnapshot) (xs : List GenerationSnapshot)
    → epoch_of (latest_snapshot id xs) ≤ epoch_of (latest_snapshot id (x ∷ xs))
unfolding latest_snapshot
tail_below id x xs = elim (Option-cases (latest_snapshot id xs)) [
  | inl e ↦ ground (arith, e)
  | inr (y, e) ↦ ground (arith, e)
]

head_below :
    (id : ℕ) (x : GenerationSnapshot) (xs : List GenerationSnapshot)
    → (x.session_id == id) ≡ true
    → x.generation_epoch ≤ epoch_of (latest_snapshot id (x ∷ xs))
unfolding latest_snapshot
head_below id x xs h = elim (Option-cases (latest_snapshot id xs)) [
  | inl e ↦ ground (arith, e, h)
  | inr (y, e) ↦ ground (arith, e, h)
]

before_later :
    (id : ℕ) (x : GenerationSnapshot) (xs : List GenerationSnapshot) (row : GenerationSnapshot)
    → epoch_of (latest_snapshot id (x ∷ xs)) < row.generation_epoch
    → latest_snapshot id (xs ++ row ∷ []) ≡ some row
    → latest_snapshot id (x ∷ xs ++ row ∷ []) ≡ some row
before_later id x xs row k later = elim (Bool-cases (x.session_id == id)) [
  | inl mine ↦
      let below = head_below id x xs mine in
      unfold latest_snapshot in ground (arith, later, mine, below)
  | inr other ↦ unfold latest_snapshot in ground (arith, later, other)
]

pub latest_snapshot-later :
    (id : ℕ) (xs : List GenerationSnapshot) (row : GenerationSnapshot)
    → (row.session_id == id) ≡ true
    → epoch_of (latest_snapshot id xs) < row.generation_epoch
    → latest_snapshot id (xs ++ row ∷ []) ≡ some row
latest_snapshot-later id [] row h k = unfold latest_snapshot in ground (arith, h)
latest_snapshot-later id (x ∷ xs) row h k =
    before_later id x xs row k
      (latest_snapshot-later id xs row h (omega (arith, tail_below id x xs)))
