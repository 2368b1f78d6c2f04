-- ===== src/Domain/Leases/Succession.antt =====
-- A granted claim and the earlier and later workers, by domain/queue.py.
use axit_project.Prelude.{
  ◌≡◌, ◌≢◌, ◌↔◌, refl, inl, inr, Result-cases, true, false, String, Option, none, ℤ, pos, ◌≤ℤ◌,
  ◌+ℤ◌, is_blank, is_ascii, arith, ok, err, int_eqb_iff, int_eq,
}
use axit_project.Errors.{stale_lease_error, job_not_claimable_error}
use axit_project.Time.{DateTime, is_aware, later_than, add_delta}
use axit_project.Domain.Models.{JobState, failed_retryable, job_state_eq}
use axit_project.Domain.Models.Records.{
  JobLeaseView, JobClaimIntent, JobCompletionIntent, JobRequeueIntent, check_job_lease,
}
use axit_project.Domain.Leases.{
  build_claim_intent, build_heartbeat_intent, build_completion_intent, build_requeue_intent,
  assert_current_lease, reclaims, is_completion_state,
}
use axit_project.Domain.Leases.Fencing.{
  Holds, apply_claim, build_claim_intent-IsGranted, assert_current_lease-iff_Holds,
}

module _ (job : JobLeaseView) (owner token : String) (now : DateTime) (duration : ℤ)
    (intent : JobClaimIntent)
    (granted : build_claim_intent job owner token now duration ≡ ok intent) where
  -- What the claim asks for is what the worker offered.
  granted_as_asked : (intent.lease_token ≡ token) × (intent.owner_id ≡ owner)
  unfolding build_claim_intent
  granted_as_asked = elim (Result-cases (reclaims job.state job.lease_until now)) [
    | inl (taken, took) ↦ elim (Result-cases (add_delta now duration)) [
      | inl (until, added) ↦ ground arith
      | inr (e, failed_add) ↦ absurd (ground arith)
    ]
    | inr (e, refused) ↦ absurd (ground arith)
  ]

  -- When a claim on a well-formed row is granted under an ASCII token, the intent names the worker as
  -- the owner and the row it writes is well-formed. Exactly the next generation under the worker's
  -- own token holds the lease on that row, and with them the worker can complete the job to every
  -- completion state.
  pub apply_claim-Holds :
      check_job_lease job ≡ ok tt
      → is_ascii token ≡ true
      → (intent.owner_id ≡ owner)
        × (check_job_lease (apply_claim job intent) ≡ ok tt)
        × ((generation : ℤ) (held : String)
            → Holds (apply_claim job intent) generation held
              ↔ ((generation ≡ job.lease_generation +ℤ pos 1) × (held ≡ token)))
        × ((target : JobState)
            → is_completion_state target ≡ true
            → (completion : JobCompletionIntent) × (build_completion_intent
                  (apply_claim job intent)
                  (job.lease_generation +ℤ pos 1)
                  token
                  target
                ≡ ok completion)
              × (completion.target_state ≡ target))
  unfolding check_job_lease build_completion_intent
  apply_claim-Holds valid ascii =
      let facts = build_claim_intent-IsGranted job owner token now duration intent granted in
      let (same_token, same_owner) = granted_as_asked in
      let holds : Holds (apply_claim job intent) (job.lease_generation +ℤ pos 1) token =
        ground (arith, facts, same_token) in
      let current =
        (assert_current_lease-iff_Holds (apply_claim job intent) (job.lease_generation +ℤ pos 1)
            token).1
          holds in
      (
        same_owner,
        ground (arith, facts),
        λ generation held. (
          λ h. (ground (arith, h, facts), ground (arith, h, same_token)),
          λ (e1, e2). rw (e1, e2) holds,
        ),
        λ target final. (
          record {
            job_id = job.job_id;
            lease_generation = job.lease_generation +ℤ pos 1;
            lease_token = token;
            target_state = target;
          },
          rw (current, final) refl,
          refl,
        ),
      )

  -- After a granted claim, a worker with a token that is not blank and a generation from 1 to the
  -- one before the claim is refused as stale, for a heartbeat and for a completion.
  pub apply_claim-fences :
      (generation : ℤ) (old_token : String) (target : JobState) (later : DateTime) (extension : ℤ)
      → pos 1 ≤ℤ generation
      → generation ≤ℤ job.lease_generation
      → is_blank old_token ≡ false
      → (build_completion_intent (apply_claim job intent) generation old_token target
          ≡ err stale_lease_error)
        × (build_heartbeat_intent (apply_claim job intent) generation old_token later extension
            ≡ err stale_lease_error)
  unfolding build_completion_intent build_heartbeat_intent
  apply_claim-fences generation old_token target later extension issued old not_blank = ground (
    arith,
    build_claim_intent-IsGranted job owner token now duration intent granted,
    int_eqb_iff intent.lease_generation generation,
  )

  -- After a granted claim, and until its lease expires, a rival with an owner and a token that are
  -- not blank, an aware clock and a positive duration is refused: the job is not claimable.
  pub apply_claim-excludes :
      (rival rival_token : String) (later : DateTime) (extension : ℤ)
      → is_blank rival ≡ false
      → is_blank rival_token ≡ false
      → is_aware later ≡ true
      → pos 1 ≤ℤ extension
      → later_than intent.lease_until later ≡ true
      → build_claim_intent (apply_claim job intent) rival rival_token later extension
        ≡ err job_not_claimable_error
  unfolding build_claim_intent reclaims
  apply_claim-excludes rival rival_token later extension h1 h2 h3 h4 h5 =
      ground (arith, build_claim_intent-IsGranted job owner token now duration intent granted)

-- The row that a completion intent asks the repository to write.
abbrev pub apply_completion : JobLeaseView → JobCompletionIntent → JobLeaseView
apply_completion job intent = record job {
  state = intent.target_state;
  lease_token = none;
  lease_until = none;
}

-- A row that no worker holds, that nobody can claim, and that can be requeued exactly when it
-- failed retryably.
pub record IsFinal (job : JobLeaseView) : Type 0 where
  pub no_holder : (generation : ℤ) (token : String) → ¬ Holds job generation token
  pub no_claim :
      (owner token : String) (now : DateTime) (duration : ℤ) (intent : JobClaimIntent)
      → build_claim_intent job owner token now duration ≢ ok intent
  pub requeue :
      ((intent : JobRequeueIntent) × (build_requeue_intent job ≡ ok intent))
      ↔ (job.state ≡ failed_retryable)

requeue_iff :
    (job : JobLeaseView)
    → ((intent : JobRequeueIntent) × (build_requeue_intent job ≡ ok intent))
      ↔ (job.state ≡ failed_retryable)
unfolding build_requeue_intent
requeue_iff job = (
  λ h. ground arith,
  λ h. (
    record { job_id = job.job_id; expected_lease_generation = job.lease_generation },
    ground arith,
  ),
)

reclaims_of_completed :
    (state : JobState) (until : Option DateTime) (now : DateTime)
    → is_completion_state state ≡ true
    → reclaims state until now ≡ err job_not_claimable_error
unfolding reclaims
reclaims_of_completed state until now h = ground arith

no_claim_of_completed :
    (job : JobLeaseView)
    → is_completion_state job.state ≡ true
    → (owner token : String) (now : DateTime) (duration : ℤ) (intent : JobClaimIntent)
    → build_claim_intent job owner token now duration ≢ ok intent
unfolding build_claim_intent
no_claim_of_completed job final owner token now duration intent h =
    ground (arith, reclaims_of_completed job.state job.lease_until now)

target_of_completion :
    (job : JobLeaseView) (generation : ℤ) (token : String) (target : JobState)
    (intent : JobCompletionIntent)
    → build_completion_intent job generation token target ≡ ok intent
    → (assert_current_lease job generation token ≡ ok tt)
      × (intent.target_state ≡ target)
      × (is_completion_state target ≡ true)
unfolding build_completion_intent
target_of_completion job generation token target intent h =
    elim (Result-cases (assert_current_lease job generation token)) [
      | inl (u, held) ↦ ground arith
      | inr (e, refused) ↦ absurd (ground arith)
    ]

-- A granted completion was asked for by the holder of the lease. The row it writes has no holder,
-- cannot be claimed, and can be requeued exactly when it failed retryably.
pub apply_completion-IsFinal :
    (job : JobLeaseView) (generation : ℤ) (token : String) (target : JobState)
    (intent : JobCompletionIntent)
    → build_completion_intent job generation token target ≡ ok intent
    → Holds job generation token × IsFinal (apply_completion job intent)
apply_completion-IsFinal job generation token target intent h =
    let (held, same, final) = target_of_completion job generation token target intent h in
    (
      (assert_current_lease-iff_Holds job generation token).0 held,
      record {
        no_holder = λ g t holds. ground (arith, holds);
        no_claim = no_claim_of_completed (apply_completion job intent) (rw same final);
        requeue = requeue_iff (apply_completion job intent);
      },
    )
