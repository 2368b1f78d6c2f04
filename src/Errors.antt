-- ===== src/Errors.antt =====
-- The exceptions that the backend raises (apps/api/app/domain/models.py and the services).
-- Their messages are left out; `close_blocked_error` keeps the identifiers it carries.
use axit_project.Prelude.{List, String}

pub data Error : Type 0 where
  domain_invariant_error : Error
  session_state_error : Error
  actor_not_member_error : Error
  host_authorization_error : Error
  close_blocked_error : List String → Error
  job_not_claimable_error : Error
  session_access_error : Error
  session_host_required_error : Error
  extraction_run_missing_error : List String → Error
  extraction_anchor_schema_mismatch_error : Error
  session_retry_access_error : Error
  session_retry_host_required_error : Error
  session_retry_unavailable_error : Error
  invalid_cursor_error : Error
  permission_error : Error
  -- `SummaryGroundingError` and its subclasses, by their code
  summary_grounding_error : String → Error
  runtime_error : Error
  stale_lease_error : Error
  queue_invariant_error : Error
  -- Python's own
  value_error : Error
  type_error : Error
  overflow_error : Error
  -- a constraint of the database refused a row
  integrity_error : Error
  -- the database cannot represent a value
  data_error : Error
