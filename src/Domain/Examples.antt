-- ===== src/Domain/Examples.antt =====
-- Concrete inputs for the theorems on apps/api/app/domain/queue.py.
mod Policies
use mathlib.Core.List.{Perm, Permᴰ}
use mathlib.Core.List.Perm
use axit_project.Prelude.{
  ℕ, ◌≡◌, ◌↔◌, refl, inl, inr, arith, Bool, true, false, not, ◌&&◌, List, [], ◌∷◌, String, Option,
  none, some, ℤ, pos, ◌≤ℤ◌, contains, is_ascii, is_blank, ok, err, ltb_ℤ,
}
use axit_project.Prelude.Sorting.{IsAscending}
use axit_project.Errors.{job_not_claimable_error, stale_lease_error, close_blocked_error}
use axit_project.Time.{DateTime, is_aware, later_than, add_delta}
use axit_project.Domain.Models.{
  draft, open_session, closed, processing, ready, needs_attention, running, succeeded,
  failed_retryable, revision_ready, extracting, summary, research, run_succeeded,
  run_failed_retryable, operator_or_replan, JobState,
}
use axit_project.Domain.Models.Records.{
  RevisionStatus, CloseExclusion, CloseEligibility, GenerationRunView, GenerationAggregate,
  JobLeaseView, JobClaimIntent, JobCompletionIntent, check_job_lease, new_generation_run_view,
}
use axit_project.Domain.Leases.{
  reclaims, token_matches, build_claim_intent, build_heartbeat_intent, build_completion_intent,
  assert_current_lease, is_completion_state,
}
use axit_project.Domain.Leases.Fencing.{
  Holds, IsGranted, apply_claim, assert_current_lease-iff_Holds, build_claim_intent-IsGranted,
}
use axit_project.Domain.Leases.Succession.{
  apply_claim-Holds, apply_claim-fences, apply_claim-excludes, apply_completion, IsFinal,
  apply_completion-IsFinal,
}

abbrev at : ℕ → DateTime
at n = record { local = n; utc_offset = some (pos 0) }

-- A job whose lease ran out at time 100, and the claim that takes it over at 200.
abbrev expired_job : JobLeaseView
expired_job = record {
  job_id = "job";
  state = running;
  lease_generation = pos 1;
  lease_token = some "old";
  lease_until = some (at 100);
}

abbrev takeover : JobClaimIntent
takeover = record {
  job_id = "job";
  expected_state = running;
  expected_lease_generation = pos 1;
  expected_lease_token = some "old";
  owner_id = "worker";
  lease_generation = pos 2;
  lease_token = "new";
  lease_until = at 250;
  reclaimed_expired_lease = true;
}

takeover_granted : build_claim_intent expired_job "worker" "new" (at 200) (pos 50) ≡ ok takeover
unfolding build_claim_intent is_blank reclaims later_than add_delta
takeover_granted = refl

build_claim_intent-IsGranted_example : IsGranted expired_job (at 200) takeover
build_claim_intent-IsGranted_example =
    build_claim_intent-IsGranted expired_job "worker" "new" (at 200) (pos 50) takeover
      takeover_granted

assert_current_lease-iff_Holds_example :
    (assert_current_lease expired_job (pos 1) "old" ≡ ok tt) ↔ Holds expired_job (pos 1) "old"
assert_current_lease-iff_Holds_example = assert_current_lease-iff_Holds expired_job (pos 1) "old"

expired_job_checked : check_job_lease expired_job ≡ ok tt
unfolding check_job_lease is_blank
expired_job_checked = refl

new_ascii : is_ascii "new" ≡ true
unfolding is_ascii
new_ascii = refl

apply_claim-Holds_example :
    (takeover.owner_id ≡ "worker")
    × (check_job_lease (apply_claim expired_job takeover) ≡ ok tt)
    × ((generation : ℤ) (held : String)
        → Holds (apply_claim expired_job takeover) generation held
          ↔ ((generation ≡ pos 2) × (held ≡ "new")))
    × ((target : JobState)
        → is_completion_state target ≡ true
        → (completion : JobCompletionIntent) × (build_completion_intent
              (apply_claim expired_job takeover)
              (pos 2)
              "new"
              target
            ≡ ok completion)
          × (completion.target_state ≡ target))
apply_claim-Holds_example =
    apply_claim-Holds expired_job "worker" "new" (at 200) (pos 50) takeover takeover_granted
      expired_job_checked new_ascii

not_blank_old : is_blank "old" ≡ false
unfolding is_blank
not_blank_old = refl

apply_claim-fences_example :
    (build_completion_intent (apply_claim expired_job takeover) (pos 1) "old" succeeded
      ≡ err stale_lease_error)
    × (build_heartbeat_intent (apply_claim expired_job takeover) (pos 1) "old" (at 210) (pos 50)
        ≡ err stale_lease_error)
apply_claim-fences_example =
    apply_claim-fences expired_job "worker" "new" (at 200) (pos 50) takeover takeover_granted
      (pos 1) "old" succeeded (at 210) (pos 50) (omega arith) (omega arith) not_blank_old

not_blank_rival : is_blank "rival" ≡ false
unfolding is_blank
not_blank_rival = refl

in_time : later_than (at 250) (at 240) ≡ true
unfolding later_than
in_time = refl

apply_claim-excludes_example :
    build_claim_intent (apply_claim expired_job takeover) "rival" "rival" (at 240) (pos 50)
    ≡ err job_not_claimable_error
apply_claim-excludes_example =
    apply_claim-excludes expired_job "worker" "new" (at 200) (pos 50) takeover takeover_granted
      "rival" "rival" (at 240) (pos 50) not_blank_rival not_blank_rival refl (omega arith) in_time

abbrev retryable_completion : JobCompletionIntent
retryable_completion = record {
  job_id = "job";
  lease_generation = pos 1;
  lease_token = "old";
  target_state = failed_retryable;
}

completed :
    build_completion_intent expired_job (pos 1) "old" failed_retryable ≡ ok retryable_completion
unfolding build_completion_intent is_blank token_matches is_ascii
completed = refl

apply_completion-IsFinal_example :
    Holds expired_job (pos 1) "old" × IsFinal (apply_completion expired_job retryable_completion)
apply_completion-IsFinal_example =
    apply_completion-IsFinal expired_job (pos 1) "old" failed_retryable retryable_completion
      completed
