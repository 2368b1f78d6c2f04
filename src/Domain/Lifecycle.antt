-- ===== src/Domain/Lifecycle.antt =====
-- apps/api/app/domain/policies.py: the session's state graph and the actor checks.
pub mod Graph
pub mod Actors
use axit_project.Prelude.{
  Bool, List, [], ◌∷◌, String, not, ◌==◌, contains, is_blank, Result, require, ◌>>◌, string_eq,
}
use axit_project.Errors.{
  Error, domain_invariant_error, session_state_error, actor_not_member_error,
  host_authorization_error,
}
use axit_project.Domain.Models.{
  TalkSessionState, draft, open_session, closed, processing, ready, needs_attention,
  session_state_eq,
}

-- `_ALLOWED_SESSION_TRANSITIONS`, read by `allowed_session_targets`.
unfoldable pub allowed_session_targets : TalkSessionState → List TalkSessionState
allowed_session_targets draft = open_session ∷ []
allowed_session_targets open_session = closed ∷ []
allowed_session_targets closed = processing ∷ []
allowed_session_targets processing = ready ∷ needs_attention ∷ []
allowed_session_targets needs_attention = processing ∷ []
allowed_session_targets ready = []

unfoldable pub assert_session_transition :
    TalkSessionState → TalkSessionState → Result Error (Unit {0})
unfolding allowed_session_targets
assert_session_transition current target =
    require (contains (allowed_session_targets current) target) session_state_error

unfoldable pub require_open_session : TalkSessionState → Result Error (Unit {0})
require_open_session state = require (state == open_session) session_state_error

unfoldable pub assert_room_member : String → List String → Result Error (Unit {0})
assert_room_member actor_id member_user_ids = do
  require (not (is_blank actor_id)) domain_invariant_error
  require (contains member_user_ids actor_id) actor_not_member_error

unfoldable pub assert_host_actor : String → String → List String → Result Error (Unit {0})
assert_host_actor actor_id host_user_id member_user_ids = do
  assert_room_member actor_id member_user_ids
  require (not (is_blank host_user_id)) domain_invariant_error
  require (actor_id == host_user_id) host_authorization_error
