-- ===== src/Queue/Invariant/Claim.antt =====
-- The row that `claim_next` selects, and its writes, against the invariant.
use mathlib.Core.Path.{subst}
use axit_project.Prelude.{
  ℕ, ◌+◌, ◌≤◌, ◌≡◌, refl, sym, ap, Bool, true, false, ◌&&◌, List, [], ◌∷◌, ◌++◌, Option, some, ◌==◌,
  All, arith, String, string_eq, nat_eq, All-mono, All-zip, filter_by, if◌then◌else◌, inl, inr,
  Bool-cases, Option-cases, ℤ, ok,
}
use axit_project.Database.{
  count_by, update_where, transaction, lift_keeps, then_lift_keeps, transaction_keeps,
}
use axit_project.Database.Rows.{count_by_mono}
use axit_project.Domain.Models.{running, job_state_eq}
use axit_project.Queue.{Job, Attempt, Tables, attempt_expired}
use axit_project.Queue.Checks.{
  require_owner, require_lease_seconds, normalize_claim_kinds, claimed_job,
}
use axit_project.Queue.Claim.{
  ClaimTimes, claimable, before, first_in_order, is_open, grant, new_attempt, insert_attempt,
  expire_attempt, claim_row, claim_selected, select_and_claim, selects_nothing, claim_next,
}
use axit_project.Queue.Invariant.{IsConsistent, IsWellFormed, has_id, current_of}
use axit_project.Queue.Invariant.Granted.{is_chosen, granted-IsWellFormed}

-- The first row is one of the rows.
first_in_order-All :
    (P : Job → Type 0) (js : List Job) (row : Job) → All P js → first_in_order js ≡ some row → P row
unfolding first_in_order
first_in_order-All P [] row h e = absurd (ground arith)
first_in_order-All P (j ∷ rest) row h e = elim (Option-cases (first_in_order rest)) [
  | inl empty ↦ subst P (ground arith) h.0
  | inr (k, found) ↦ elim (Bool-cases (before k j)) [
    | inl earlier ↦ subst P (ground arith) (first_in_order-All P rest k h.1 found)
    | inr later ↦ subst P (ground arith) h.0
  ]
]

All-filter_by :
    (P : Job → Type 0) (test : Job → Bool) (js : List Job)
    → All P js
    → All (λ j. P j × (test j ≡ true)) (filter_by test js)
All-filter_by P test [] h = tt
All-filter_by P test (j ∷ rest) h = elim (Bool-cases (test j)) [
  | inl e ↦ rw e ((h.0, e), All-filter_by P test rest h.1)
  | inr e ↦ rw e (All-filter_by P test rest h.1)
]

-- Each row is counted by every test that it passes.
All-counted : (q : Job → Bool) (js : List Job) → All (λ k. q k ≡ true → 1 ≤ count_by q js) js
unfolding count_by
All-counted q [] = tt
All-counted q (j ∷ rest) =
    (λ e. ground arith, All-mono _ _ rest (λ k h e. ground (arith, h e)) (All-counted q rest))

module _ (times : ClaimTimes) (token attempt_id : ℕ) (owner : String) (seconds : ℤ) (row : Job)
    (db : Tables) where
  abbrev open_then : Attempt → Bool
  open_then a = a.job_id == row.id && a.lease_generation == row.lease_generation && is_open a

  abbrev attempts_then : List Attempt
  attempts_then =
      if row.state == running
      then (expire_attempt row.id row.lease_generation times.ended db).job_attempts
      else db.job_attempts

  -- The writes of a claim that returned.
  claim_row_ok :
      (r : Option Job) (t : Tables)
      → claim_row times token attempt_id owner seconds row db ≡ (ok r, t)
      → t ≡ record db {
        jobs =
            update_where
              (has_id row.id)
              (grant (row.lease_generation + 1) token owner times.granted seconds)
              db.jobs;
        job_attempts =
            attempts_then
            ++ new_attempt attempt_id row (row.lease_generation + 1) token owner times.started ∷ [];
      }
  unfolding claim_row insert_attempt
  claim_row_ok r t h = elim (Bool-cases (row.state == running)) [
    | inl e ↦ ground (arith, e)
    | inr e ↦ ground (arith, e)
  ]

nothing_updated :
    (f : Attempt → Attempt) (attempts : List Attempt)
    → update_where (λ _. false) f attempts ≡ attempts
unfolding update_where
nothing_updated f [] = refl
nothing_updated f (a ∷ rest) = ap (λ l. a ∷ l) (nothing_updated f rest)

abbrev expired : ℕ → Attempt → Attempt
expired now a = record a {
  ended_at = some now;
  status = attempt_expired;
  error_code = some "lease_expired";
}

claim_row-IsWellFormed :
    (times : ClaimTimes) (token attempt_id : ℕ) (owner : String) (seconds : ℤ) (row : Job)
    (db : Tables) (r : Option Job) (t : Tables)
    → claim_row times token attempt_id owner seconds row db ≡ (ok r, t)
    → IsWellFormed db
    → IsConsistent db.job_attempts db.job_results row
    → 1 ≤ count_by (is_chosen row) db.jobs
    → IsWellFormed t
claim_row-IsWellFormed times token attempt_id owner seconds row db r t ran h c there =
    subst IsWellFormed (sym (claim_row_ok times token attempt_id owner seconds row db r t ran))
      (by_state (row.state == running) refl)
  where
    by_state :
        (b : Bool)
        → (row.state == running) ≡ b
        → IsWellFormed (record db {
          jobs =
              update_where
                (has_id row.id)
                (grant (row.lease_generation + 1) token owner times.granted seconds)
                db.jobs;
          job_attempts =
              (if b
                then update_where
                    (open_then times token attempt_id owner seconds row db)
                    (expired times.ended)
                    db.job_attempts
                else db.job_attempts)
              ++ new_attempt attempt_id row (row.lease_generation + 1) token owner times.started
                ∷ [];
        })
    by_state true e =
        granted-IsWellFormed row token attempt_id owner times.started times.granted seconds
          db.job_attempts db.job_results (open_then times token attempt_id owner seconds row db)
          (expired times.ended) (λ a p. (ground arith, refl)) (λ a. (refl, refl))
          (ground (
            arith,
            c.one_open,
            c.one_current,
            e,
            count_by_mono (current_of row) (open_then times token attempt_id owner seconds row db)
                db.job_attempts (λ a p. ground arith),
          ))
          db.jobs db.snapshots h there
    by_state false e =
        subst
          (λ l. IsWellFormed (record db {
            jobs =
                update_where (has_id row.id)
                  (grant (row.lease_generation + 1) token owner times.granted seconds) db.jobs;
            job_attempts =
                l
                ++ new_attempt attempt_id row (row.lease_generation + 1) token owner times.started
                  ∷ [];
          }))
          (nothing_updated (λ a. a) db.job_attempts)
          (granted-IsWellFormed row token attempt_id owner times.started times.granted seconds
            db.job_attempts db.job_results (λ _. false) (λ a. a) (λ a p. absurd (ground arith))
            (λ a. (refl, refl)) (ground (arith, c.one_open, e)) db.jobs db.snapshots h there)

module _ (times : ClaimTimes) (locked : ℕ → Bool) (token attempt_id : ℕ) (owner : String)
    (seconds : ℤ) where
  -- The row that a claim selects.
  selected_facts :
      (kinds : Option (List String)) (row : Job) (db : Tables)
      → IsWellFormed db
      → first_in_order (filter_by (claimable times.selected kinds locked) db.jobs) ≡ some row
      → IsConsistent db.job_attempts db.job_results row × (1 ≤ count_by (is_chosen row) db.jobs)
  selected_facts kinds row db h found =
      let ((consistent, counted), passes) =
        first_in_order-All _ _ row
          (All-filter_by _ (claimable times.selected kinds locked) db.jobs
            (All-zip _ _ db.jobs h.consistent (All-counted (is_chosen row) db.jobs)))
          found in
      (consistent, counted (ground arith))

  select_and_claim-IsWellFormed :
      (kinds : Option (List String)) (db : Tables) (r : Option Job) (t : Tables)
      → select_and_claim times locked token attempt_id owner seconds kinds db ≡ (ok r, t)
      → IsWellFormed db
      → IsWellFormed t
  unfolding select_and_claim claim_selected
  select_and_claim-IsWellFormed kinds db r t ran h = elim (Bool-cases (selects_nothing kinds)) [
    | inl nothing ↦ subst IsWellFormed (ground (arith, nothing)) h
    | inr something ↦
        elim (Option-cases
          (first_in_order (filter_by (claimable times.selected kinds locked) db.jobs))) [
            | inl empty ↦ subst IsWellFormed (ground (arith, something, empty)) h
            | inr (row, found) ↦
                let (consistent, there) = selected_facts kinds row db h found in
                claim_row-IsWellFormed times token attempt_id owner seconds row db r t
                  (ground (arith, something, found)) h consistent there
          ]
  ]

  -- A claim, whatever its outcome, keeps the tables well-formed.
  pub claim_next-IsWellFormed :
      (kinds : Option (List String)) (db : Tables)
      → IsWellFormed db
      → IsWellFormed (claim_next times locked token attempt_id owner seconds kinds db).1
  unfolding claim_next
  claim_next-IsWellFormed kinds db h = lift_keeps IsWellFormed (require_owner owner) _ db h λ _ _.
      lift_keeps IsWellFormed (require_lease_seconds seconds) _ db h λ _ _.
        lift_keeps IsWellFormed (normalize_claim_kinds kinds) _ db h λ claim_kinds _.
          then_lift_keeps IsWellFormed
            (transaction (select_and_claim times locked token attempt_id owner seconds claim_kinds))
            (claimed_job token attempt_id owner) db
            (transaction_keeps IsWellFormed
              (select_and_claim times locked token attempt_id owner seconds claim_kinds) db h
              (λ r t ran. select_and_claim-IsWellFormed claim_kinds db r t ran h))
