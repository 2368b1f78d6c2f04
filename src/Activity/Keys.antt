-- ===== src/Activity/Keys.antt =====
-- apps/api/app/activity_policy.py: `build_event_key`.
use axit_project.Prelude.{
  Bool, true, false, ◌&&◌, ◌||◌, List, [], ◌∷◌, String, code, Option, none, some, ◌==◌, contains,
  nat_eqb, if◌then◌else◌, Result, ok, err, require, ◌>>=◌, ◌>>◌, string_eq,
}
use axit_project.Errors.{Error, value_error}
use axit_project.Activity.{supported_audit_event_types}
use Prim.Native.String.{◌++◌ as text_append}

-- `text.startswith(prefix)`
unfoldable pub starts_with : String → String → Bool
starts_with String.[] s = true
starts_with (String.◌∷◌ p ps) String.[] = false
starts_with (String.◌∷◌ p ps) (String.◌∷◌ c s) = nat_eqb (code p) (code c) && starts_with ps s

has_dot : String → Bool
has_dot String.[] = false
has_dot (String.◌∷◌ c s) = nat_eqb (code c) 46 || has_dot s

-- `text.rsplit(".", 1)[1]`, of a text with a dot
unfoldable pub last_part : String → String
unfolding has_dot
last_part String.[] = ""
last_part (String.◌∷◌ c s) = let later = last_part s in if has_dot s then later else s

-- A piece of an f-string: a text, or `required(name)`.
pub data Piece : Type 0 where
  literal : String → Piece
  field : String → Piece

-- The texts of the identities that are given and are not `None`.
abbrev pub Identity : Type 0
Identity = String → Option String

abbrev pub piece_text : Identity → Piece → Result Error String
piece_text identity (literal s) = ok s
piece_text identity (field name) = elim (identity name) [ none ↦ err value_error | some s ↦ ok s ]

unfoldable pub key_of : Identity → List Piece → Result Error String
key_of identity [] = ok ""
key_of identity (p ∷ rest) =
    piece_text identity p >>= λ s. key_of identity rest >>= λ t. ok (text_append s t)

-- The f-string that the chain of tests on the event type returns. `reconciled` is whether that
-- identity is given and true.
unfoldable pub event_pieces : String → Bool → List Piece
unfolding starts_with last_part
event_pieces event_type reconciled =
    if event_type == "account.registered"
    then literal "account:" ∷ field "user_id" ∷ literal ":registered" ∷ []
    else if event_type == "profile.updated"
    then literal "profile:" ∷ field "user_id" ∷ literal ":v" ∷ field "profile_version" ∷ []
    else if event_type == "notification_preferences.updated"
    then literal "preferences:" ∷ field "user_id" ∷ literal ":v" ∷ field "preferences_version" ∷ []
    else if starts_with "friendship." event_type
    then literal "friendship:"
      ∷ field "friendship_id"
      ∷ literal ":"
      ∷ literal (last_part event_type)
      ∷ literal ":aud:"
      ∷ field "audience_user_id"
      ∷ []
    else if event_type == "room.created"
    then literal "room:" ∷ field "room_id" ∷ literal ":created" ∷ []
    else if event_type == "room.member_added"
    then literal "room:"
      ∷ field "room_id"
      ∷ literal ":member:"
      ∷ field "user_id"
      ∷ literal ":added"
      ∷ []
    else if event_type == "room.member_left"
    then literal "room:"
      ∷ field "room_id"
      ∷ literal ":member:"
      ∷ field "user_id"
      ∷ literal ":left"
      ∷ []
    else if event_type == "session.created"
    then literal "session:" ∷ field "session_id" ∷ literal ":created" ∷ []
    else if event_type == "session.archived"
    then literal "session:" ∷ field "session_id" ∷ literal ":archived" ∷ []
    else if event_type == "session.retry_requested"
    then literal "session:"
      ∷ field "session_id"
      ∷ literal ":epoch:"
      ∷ field "generation_epoch"
      ∷ literal ":retry:"
      ∷ field "retry_ordinal"
      ∷ []
    else if starts_with "session." event_type
    then literal "session:"
      ∷ field "session_id"
      ∷ literal ":state-v"
      ∷ field "state_version"
      ∷ literal ":"
      ∷ literal (last_part event_type)
      ∷ []
    else if event_type == "submission.deleted"
    then literal "submission:" ∷ field "submission_id" ∷ literal ":deleted" ∷ []
    else if starts_with "submission." event_type
    then literal "submission:"
      ∷ field "submission_id"
      ∷ literal ":revision:"
      ∷ field "revision_no"
      ∷ literal ":"
      ∷ literal (last_part event_type)
      ∷ []
    else if event_type == "source_revision.retry_requested"
    then literal "revision:"
      ∷ field "revision_id"
      ∷ literal ":retry:"
      ∷ field "retry_nonce"
      ∷ literal ":requested"
      ∷ []
    else if starts_with "source_revision." event_type && reconciled
    then literal "revision:"
      ∷ field "revision_id"
      ∷ literal ":reconcile:"
      ∷ field "job_id"
      ∷ literal ":"
      ∷ literal (last_part event_type)
      ∷ []
    else if starts_with "source_revision." event_type
    then literal "revision:"
      ∷ field "revision_id"
      ∷ literal ":attempt:"
      ∷ field "job_attempt_id"
      ∷ literal ":"
      ∷ literal (last_part event_type)
      ∷ []
    else if event_type == "suggestion.created"
    then literal "suggestion:" ∷ field "suggestion_id" ∷ literal ":created" ∷ []
    else if starts_with "suggestion." event_type
    then literal "suggestion:"
      ∷ field "suggestion_id"
      ∷ literal ":v"
      ∷ field "version"
      ∷ literal ":"
      ∷ literal (last_part event_type)
      ∷ []
    else if event_type == "merged_document.saved"
    then literal "merged_document:"
      ∷ field "session_id"
      ∷ literal ":snapshot:"
      ∷ field "snapshot_id"
      ∷ literal ":v"
      ∷ field "version"
      ∷ literal ":saved"
      ∷ []
    else if event_type == "merged_document.version_created"
    then literal "merged_document_version:" ∷ field "version_id" ∷ literal ":created" ∷ []
    else literal "comment:"
      ∷ field "comment_id"
      ∷ literal ":v"
      ∷ field "version"
      ∷ literal ":"
      ∷ literal (last_part event_type)
      ∷ []

unfoldable pub build_event_key : String → Identity → Bool → Result Error String
unfolding event_pieces key_of
build_event_key event_type identity reconciled = do
  require (contains supported_audit_event_types event_type) value_error
  key_of identity (event_pieces event_type reconciled)
