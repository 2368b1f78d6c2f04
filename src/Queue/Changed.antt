-- ===== src/Queue/Changed.antt =====
-- The one row that an UPDATE of a completion changes, by `held_by` and by `attempt_of`.
use axit_project.Prelude.{
  ℕ, ◌<◌, ◌≡◌, refl, ap, inl, inr, Bool, true, List, [], ◌∷◌, ◌++◌, none, some, arith, Bool-cases,
  Option-cases, string_eq, nat_eq,
}
use axit_project.Database.{count_by, update_where}
use axit_project.Domain.Models.{running, job_state_eq}
use axit_project.Queue.{Job, Attempt, attempt_running, ClaimedJob}
use axit_project.Queue.Complete.{held_by, attempt_of}

-- One row was changed, which the predicate describes; the others stand as they were.
pub record Changed {A : Type 0} (P : A → Type 0) (change : A → A) (old new : List A) : Type 0 where
  pub before : List A
  pub row : A
  pub after : List A
  pub was : old ≡ before ++ row ∷ after
  pub described : P row
  pub is : new ≡ before ++ change row ∷ after

module _ {A : Type 0} (p : A → Bool) (change : A → A) where
  update_where-none : (xs : List A) → count_by p xs ≡ 0 → update_where p change xs ≡ xs
  unfolding update_where count_by
  update_where-none [] h = refl
  update_where-none (x ∷ xs) h = ground (arith, update_where-none xs)

  pub sole_change :
      (P : A → Type 0)
      → ((x : A) → p x ≡ true → P x)
      → (xs : List A) → count_by p xs ≡ 1
      → Changed P change xs (update_where p change xs)
  unfolding update_where count_by
  sole_change P describes [] h = absurd (ground arith)
  sole_change P describes (x ∷ xs) h = elim (Bool-cases (p x)) [
    | inl hit ↦ record {
      before = [];
      row = x;
      after = xs;
      was = refl;
      described = describes x hit;
      is = ground (arith, hit, update_where-none xs);
    }
    | inr miss ↦
        let rest = sole_change P describes xs (ground (arith, miss)) in
        record {
          before = x ∷ rest.before;
          row = rest.row;
          after = rest.after;
          was = ap (λ ys. x ∷ ys) rest.was;
          described = rest.described;
          is = rw miss (ap (λ ys. x ∷ ys) rest.is);
        }
  ]

-- The row runs under this claim's generation and token, and its lease has not ended.
pub record IsHeld (claimed : ClaimedJob) (now : ℕ) (j : Job) : Type 0 where
  pub same_id : j.id ≡ claimed.id
  pub is_running : j.state ≡ running
  pub same_generation : j.lease_generation ≡ claimed.lease_generation
  pub same_token : j.lease_token ≡ some claimed.lease_token
  pub until : ℕ
  pub ends : j.lease_until ≡ some until
  pub in_time : now < until

-- The attempt of this claim, which has not ended.
pub record IsOpenAttempt (claimed : ClaimedJob) (a : Attempt) : Type 0 where
  pub same_job : a.job_id ≡ claimed.id
  pub same_generation : a.lease_generation ≡ claimed.lease_generation
  pub same_token : a.lease_token ≡ claimed.lease_token
  pub is_running : a.status ≡ attempt_running
  pub not_ended : a.ended_at ≡ none

pub held_by-IsHeld :
    (claimed : ClaimedJob) (now : ℕ) (j : Job) → held_by claimed now j ≡ true → IsHeld claimed now j
held_by-IsHeld claimed now j h = elim (Option-cases j.lease_until) [
  | inl missing ↦ absurd (ground (arith, h, missing))
  | inr (until, ends) ↦ record {
    same_id = ground (arith, h, ends);
    is_running = ground (arith, h, ends);
    same_generation = ground (arith, h, ends);
    same_token = ground (arith, h, ends);
    until = until;
    ends = ends;
    in_time = ground (arith, h, ends);
  }
]

pub attempt_of-IsOpenAttempt :
    (claimed : ClaimedJob) (a : Attempt) → attempt_of claimed a ≡ true → IsOpenAttempt claimed a
attempt_of-IsOpenAttempt claimed a h = ground arith
