-- ===== src/Domain/Leases.antt =====
-- apps/api/app/domain/queue.py: fencing intents for the durable queue.
pub mod Fencing
pub mod Succession
use axit_project.Prelude.{
  Bool, true, false, ◌&&◌, ◌||◌, not, String, Option, none, some, ℤ, pos, ltb_ℤ, ◌+ℤ◌, ◌==◌,
  is_ascii, if◌then◌else◌, Result, ok, err, require, ◌>>=◌, ◌>>◌, int_eq, string_eq,
}
use axit_project.Errors.{
  Error, domain_invariant_error, job_not_claimable_error, stale_lease_error, type_error,
}
use axit_project.Time.{DateTime, is_aware, later_than, add_delta}
use axit_project.Domain.Models.{
  JobState, pending, running, succeeded, failed_retryable, failed_terminal, require_identifier,
  job_state_eq,
}
use axit_project.Domain.Models.Records.{
  JobLeaseView, JobClaimIntent, JobHeartbeatIntent, JobCompletionIntent, JobRequeueIntent,
}

-- `hmac.compare_digest` on two texts: it refuses those that are not ASCII.
unfoldable pub compare_digest : String → String → Result Error Bool
compare_digest a b = if is_ascii a && is_ascii b then ok (a == b) else err type_error

-- `_COMPLETION_STATES`
abbrev pub is_completion_state : JobState → Bool
is_completion_state succeeded = true
is_completion_state failed_retryable = true
is_completion_state failed_terminal = true
is_completion_state _ = false

unfoldable pub require_aware : DateTime → Result Error (Unit {0})
require_aware value = require (is_aware value) domain_invariant_error

unfoldable pub require_positive_duration : ℤ → Result Error (Unit {0})
require_positive_duration value = require (ltb_ℤ (pos 0) value) domain_invariant_error

-- The branches on `job.state`: whether an expired lease is taken over.
unfoldable pub reclaims : JobState → Option DateTime → DateTime → Result Error Bool
unfolding require_aware
reclaims pending lease_until database_now = ok false
reclaims running (some lease_until) database_now = do
  require_aware lease_until
  require (not (later_than lease_until database_now)) job_not_claimable_error
  ok true
reclaims _ _ _ = err job_not_claimable_error

unfoldable pub build_claim_intent :
    JobLeaseView → String → String → DateTime → ℤ → Result Error JobClaimIntent
unfolding require_identifier require_aware require_positive_duration
build_claim_intent job owner_id new_lease_token database_now lease_duration = do
  require_identifier owner_id
  require_identifier new_lease_token
  require_aware database_now
  require_positive_duration lease_duration
  reclaimed_expired_lease ← reclaims job.state job.lease_until database_now
  lease_until ← add_delta database_now lease_duration
  ok (record {
    job_id = job.job_id;
    expected_state = job.state;
    expected_lease_generation = job.lease_generation;
    expected_lease_token = job.lease_token;
    owner_id = owner_id;
    lease_generation = job.lease_generation +ℤ pos 1;
    lease_token = new_lease_token;
    lease_until = lease_until;
    reclaimed_expired_lease = reclaimed_expired_lease;
  })

-- The last two operands of the `or`: a missing token, or one that differs.
unfoldable pub token_matches : Option String → String → Result Error Bool
unfolding compare_digest
token_matches none lease_token = ok false
token_matches (some held) lease_token = compare_digest held lease_token

unfoldable pub assert_current_lease : JobLeaseView → ℤ → String → Result Error (Unit {0})
unfolding require_identifier
assert_current_lease job lease_generation lease_token = do
  require (not (ltb_ℤ lease_generation (pos 1))) stale_lease_error
  require_identifier lease_token
  require (job.state == running) stale_lease_error
  require (job.lease_generation == lease_generation) stale_lease_error
  same ← token_matches job.lease_token lease_token
  require same stale_lease_error

unfoldable pub build_heartbeat_intent :
    JobLeaseView → ℤ → String → DateTime → ℤ → Result Error JobHeartbeatIntent
unfolding assert_current_lease require_aware require_positive_duration
build_heartbeat_intent job lease_generation lease_token database_now lease_duration = do
  assert_current_lease job lease_generation lease_token
  require_aware database_now
  require_positive_duration lease_duration
  lease_until ← add_delta database_now lease_duration
  ok (record {
    job_id = job.job_id;
    lease_generation = lease_generation;
    lease_token = lease_token;
    lease_until = lease_until;
  })

unfoldable pub build_completion_intent :
    JobLeaseView → ℤ → String → JobState → Result Error JobCompletionIntent
unfolding assert_current_lease
build_completion_intent job lease_generation lease_token target_state = do
  assert_current_lease job lease_generation lease_token
  require (is_completion_state target_state) domain_invariant_error
  ok (record {
    job_id = job.job_id;
    lease_generation = lease_generation;
    lease_token = lease_token;
    target_state = target_state;
  })

unfoldable pub build_requeue_intent : JobLeaseView → Result Error JobRequeueIntent
build_requeue_intent job = do
  require (job.state == failed_retryable) domain_invariant_error
  ok (record { job_id = job.job_id; expected_lease_generation = job.lease_generation })
