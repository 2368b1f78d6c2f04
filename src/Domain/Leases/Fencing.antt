-- ===== src/Domain/Leases/Fencing.antt =====
-- Who may claim, extend and complete a job, by domain/queue.py.
use axit_project.Prelude.{
  ◌≡◌, refl, ◌⊎◌, inl, inr, Bool, true, false, String, Option, none, some, ℤ, pos, negsuc, ltb_ℤ,
  ◌≤ℤ◌, ◌+ℤ◌, is_blank, is_ascii, arith, Result-cases, ok, string_eq, int_eq, ◌↔◌,
}
use axit_project.Time.{DateTime, is_aware, later_than, add_delta}
use axit_project.Domain.Models.{
  JobState, pending, running, succeeded, failed_retryable, failed_terminal, job_state_eq,
}
use axit_project.Domain.Models.Records.{JobLeaseView, JobClaimIntent}
use axit_project.Domain.Leases.{build_claim_intent, assert_current_lease, reclaims, token_matches}

-- A worker's lease on a job row: running, at this generation, under this token.
pub record Holds (job : JobLeaseView) (generation : ℤ) (token : String) : Type 0 where
  pub is_running : job.state ≡ running
  pub same_generation : job.lease_generation ≡ generation
  pub same_token : job.lease_token ≡ some token
  pub issued : pos 1 ≤ℤ generation
  pub not_blank : is_blank token ≡ false
  pub ascii : is_ascii token ≡ true

token_matches_iff :
    (held : Option String) (token : String)
    → (token_matches held token ≡ ok true) ↔ ((held ≡ some token) × (is_ascii token ≡ true))
unfolding token_matches
token_matches_iff none token = (λ h. ground arith, λ h. ground arith)
token_matches_iff (some t) token =
    (λ h. ground (arith, string_eq.beq_iff t token), λ h. ground (arith, string_eq.beq_iff t token))

-- `_assert_current_lease` passes exactly when the job runs, the generation is positive and the
-- row's, and the token is the row's, in ASCII and not blank.
pub assert_current_lease-iff_Holds :
    (job : JobLeaseView) (generation : ℤ) (token : String)
    → (assert_current_lease job generation token ≡ ok tt) ↔ Holds job generation token
unfolding assert_current_lease
assert_current_lease-iff_Holds job generation token = (
  λ h. ground (arith, token_matches_iff job.lease_token token),
  λ h. ground (arith, token_matches_iff job.lease_token token),
)

-- The row that a claim intent asks the repository to write.
abbrev pub apply_claim : JobLeaseView → JobClaimIntent → JobLeaseView
apply_claim job intent = record job {
  state = running;
  lease_generation = intent.lease_generation;
  lease_token = some intent.lease_token;
  lease_until = some intent.lease_until;
}

-- The job may be taken at this time: it is pending, or it runs under an expired lease.
abbrev pub Claimable : JobLeaseView → DateTime → Type 0
Claimable job now =
    (job.state ≡ pending)
    ⊎ ((until : DateTime) × (job.state ≡ running)
        × (job.lease_until ≡ some until)
        × (is_aware until ≡ true)
        × (later_than until now ≡ false))

add_delta-later :
    (t : DateTime) (delta : ℤ) (later : DateTime)
    → add_delta t delta ≡ ok later
    → ltb_ℤ (pos 0) delta ≡ true
    → (later_than later t ≡ true) × (later.utc_offset ≡ t.utc_offset)
unfolding add_delta later_than
add_delta-later t (pos n) later h positive = ground arith
add_delta-later t (negsuc n) later h positive = ground arith

reclaims-Claimable :
    (state : JobState) (until : Option DateTime) (now : DateTime) (taken : Bool)
    → reclaims state until now ≡ ok taken
    → (state ≡ pending)
      ⊎ ((u : DateTime) × (state ≡ running)
          × (until ≡ some u)
          × (is_aware u ≡ true)
          × (later_than u now ≡ false))
unfolding reclaims
reclaims-Claimable pending until now taken h = inl refl
reclaims-Claimable running (some u) now taken h = inr (u, refl, refl, ground arith, ground arith)
reclaims-Claimable running none now taken h = ground arith
reclaims-Claimable succeeded until now taken h = ground arith
reclaims-Claimable failed_retryable until now taken h = ground arith
reclaims-Claimable failed_terminal until now taken h = ground arith

-- What a granted claim says of the job and of the time.
pub record IsGranted (job : JobLeaseView) (now : DateTime) (intent : JobClaimIntent) : Type 0 where
  pub claimable : Claimable job now
  pub same_job : intent.job_id ≡ job.job_id
  pub next_generation : intent.lease_generation ≡ job.lease_generation +ℤ pos 1
  pub expected_generation : intent.expected_lease_generation ≡ job.lease_generation
  pub expected_token : intent.expected_lease_token ≡ job.lease_token
  pub outlives_now : later_than intent.lease_until now ≡ true
  pub until_aware : is_aware intent.lease_until ≡ true
  pub token_not_blank : is_blank intent.lease_token ≡ false

-- A granted claim found the job pending, or running under an aware lease that had ended. It asks
-- for the next generation, fences on the row's old generation and token, and its lease ends later
-- than the clock.
pub build_claim_intent-IsGranted :
    (job : JobLeaseView) (owner token : String) (now : DateTime) (duration : ℤ)
    (intent : JobClaimIntent)
    → build_claim_intent job owner token now duration ≡ ok intent
    → IsGranted job now intent
unfolding build_claim_intent
build_claim_intent-IsGranted job owner token now duration intent h =
    elim (Result-cases (reclaims job.state job.lease_until now)) [
      | inl (taken, took) ↦ elim (Result-cases (add_delta now duration)) [
        | inl (until, added) ↦ ground (
          arith,
          reclaims-Claimable job.state job.lease_until now taken took,
          add_delta-later now duration until,
        )
        | inr (e, failed_add) ↦ absurd (ground arith)
      ]
      | inr (e, refused) ↦ absurd (ground arith)
    ]
