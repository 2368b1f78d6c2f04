-- ===== src/Queue/Checks.antt =====
-- The checks of arguments and of persisted values in queue_repository.py.
use axit_project.Prelude.{
  ℕ, ◌+◌, ◌&&◌, ◌||◌, not, List, [], ◌∷◌, String, Option, none, some, ◌==◌, contains, leb, is_blank,
  text_length, ℤ, pos, ltb_ℤ, if◌then◌else◌, Result, ok, err, require, ◌>>=◌, ◌>>◌, string_eq,
  traverse,
}
use axit_project.Prelude.Sorting.{sorted}
use axit_project.Errors.{Error, queue_invariant_error}
use axit_project.Json.{Value, object, Fields}
use axit_project.Domain.Models.{JobState, succeeded, job_state_eq}
use axit_project.Domain.Leases.{is_completion_state}
use axit_project.Queue.{Job, DurableJob, ClaimedJob}

-- `_ALLOWED_KINDS`
abbrev pub allowed_kinds : List String
allowed_kinds = "extraction" ∷ "summary" ∷ "research" ∷ "report_suggestions" ∷ []

unfoldable pub require_logical_key : String → Result Error (Unit {0})
require_logical_key logical_key =
    require (not (is_blank logical_key) && leb (text_length logical_key) 500) queue_invariant_error

unfoldable pub require_kind : String → Result Error (Unit {0})
require_kind kind = require (contains allowed_kinds kind) queue_invariant_error

unfoldable pub require_owner : String → Result Error (Unit {0})
require_owner owner =
    require (not (is_blank owner) && leb (text_length owner) 200) queue_invariant_error

unfoldable pub require_lease_seconds : ℤ → Result Error (Unit {0})
require_lease_seconds lease_seconds =
    require (not (ltb_ℤ lease_seconds (pos 1) || ltb_ℤ (pos 3600) lease_seconds))
      queue_invariant_error

-- `set(kinds)`
pub dedupe : List String → List String
dedupe [] = []
dedupe (x ∷ xs) = let rest = dedupe xs in if contains xs x then rest else x ∷ rest

unfoldable pub normalize_claim_kinds : Option (List String) → Result Error (Option (List String))
unfolding dedupe require_kind traverse
normalize_claim_kinds none = ok none
normalize_claim_kinds (some kinds) = do
  let normalized = sorted (dedupe kinds)
  checked ← traverse require_kind normalized
  ok (some normalized)

-- The checks of `complete_with_effects` on its arguments.
unfoldable pub check_completion : JobState → Option String → Result Error (Unit {0})
check_completion target_state error_code = do
  require (is_completion_state target_state) queue_invariant_error
  if target_state == succeeded
      then elim error_code [ none ↦ ok tt | some _ ↦ err queue_invariant_error ]
      else elim error_code [
        | none ↦ err queue_invariant_error
        | some code ↦ (do
          require (not (is_blank code)) queue_invariant_error
          require (leb (text_length code) 128) queue_invariant_error)
      ]

unfoldable pub as_nonempty_string : String → Result Error String
as_nonempty_string value = if is_blank value then err queue_invariant_error else ok value

unfoldable pub durable_job_from_row : Job → Result Error DurableJob
unfolding as_nonempty_string
durable_job_from_row row = do
  logical_key ← as_nonempty_string row.logical_key
  kind ← as_nonempty_string row.kind
  ok (record {
    id = row.id;
    logical_key = logical_key;
    kind = kind;
    state = row.state;
    lease_generation = row.lease_generation;
  })

-- `payload` must be a JSON object.
unfoldable pub as_object : Value → Result Error Fields
as_object (object fields) = ok fields
as_object _ = err queue_invariant_error

-- What `claim_next` returns once its transaction is committed.
unfoldable pub claimed_job : ℕ → ℕ → String → Option Job → Result Error (Option ClaimedJob)
unfolding as_object as_nonempty_string
claimed_job lease_token attempt_id owner none = ok none
claimed_job lease_token attempt_id owner (some row) = as_object row.payload_json >>= λ payload.
    as_nonempty_string row.logical_key >>= λ logical_key. as_nonempty_string row.kind >>= λ kind.
    ok (
      some (record {
        id = row.id;
        logical_key = logical_key;
        kind = kind;
        payload = payload;
        owner = owner;
        lease_generation = row.lease_generation + 1;
        lease_token = lease_token;
        attempt_id = attempt_id;
      }))
