-- ===== src/Activity.antt =====
-- apps/api/app/activity_policy.py: the keys of audit events and the recipients of a comment.
pub mod Recipients
pub mod Keys
pub mod Distinct
pub mod Readable
pub mod Injective
pub mod Cursor
pub mod Metadata
pub mod Ledger
mod Examples
use Prim.Native.String.{◌++◌ as text_append}
use axit_project.Prelude.{
  ℕ, ◌+◌, Bool, true, false, ◌&&◌, not, List, [], ◌∷◌, ◌++◌, String, Option, none, some, ◌==◌,
  contains, filter_by, if◌then◌else◌, Result, ok, err, require, ◌>>=◌, ◌>>◌, string_eq, nat_eq,
}
use axit_project.Errors.{Error, value_error}

-- `dict.fromkeys(…)`: the values in the order in which they first come
unfoldable pub first_occurrences : List ℕ → List ℕ → List ℕ
first_occurrences seen [] = []
first_occurrences seen (x ∷ rest) =
    let skipped = first_occurrences seen rest in
    let kept = first_occurrences (x ∷ seen) rest in if contains seen x then skipped else x ∷ kept

pub record CommentRecipients : Type 0 where
  pub mention : List ℕ
  pub comment : List ℕ

unfoldable pub plan_comment_recipients : ℕ → List ℕ → List ℕ → CommentRecipients
plan_comment_recipients actor_id member_ids mentioned_user_ids =
    let mentions =
      first_occurrences [] (
        filter_by (λ user. not (user == actor_id) && contains member_ids user)
          mentioned_user_ids) in
    record {
      mention = mentions;
      comment =
          first_occurrences []
            (filter_by (λ user. not (user == actor_id) && not (contains mentions user)) member_ids);
    }

unfoldable pub transitioned_to_ready : String → String → Bool → Bool
transitioned_to_ready previous_state projected_state lease_is_current =
    lease_is_current && not (previous_state == "ready") && projected_state == "ready"

unfoldable pub should_materialize : Bool → Bool
should_materialize domain_changed = domain_changed

-- `SUPPORTED_AUDIT_EVENT_TYPES`
abbrev pub supported_audit_event_types : List String
supported_audit_event_types =
    "account.registered" ∷ "profile.updated" ∷ "notification_preferences.updated"
    ∷ "friendship.requested" ∷ "friendship.accepted" ∷ "friendship.rejected" ∷ "room.created"
    ∷ "room.member_added" ∷ "room.member_left" ∷ "session.created" ∷ "session.closed"
    ∷ "session.retry_requested" ∷ "session.processing" ∷ "session.ready" ∷ "session.needs_attention"
    ∷ "session.reopened" ∷ "session.archived" ∷ "submission.created" ∷ "submission.revised"
    ∷ "submission.deleted" ∷ "source_revision.ready" ∷ "source_revision.failed"
    ∷ "source_revision.retry_requested" ∷ "suggestion.created" ∷ "suggestion.accepted"
    ∷ "suggestion.rejected" ∷ "comment.created" ∷ "comment.updated" ∷ "comment.deleted"
    ∷ "merged_document.saved" ∷ "merged_document.version_created" ∷ []

abbrev pub join : List String → String
join [] = ""
join (s ∷ rest) = text_append s (join rest)

-- `str(n)` and the text of a UUID are parameters.
module _ (decimal_text : ℕ → String) (uuid_text : ℕ → String) where
  unfoldable pub compound_session_event_keys :
      String → ℕ → ℕ → ℕ → ℕ → Result Error (String × String)
  compound_session_event_keys operation session_id generation_epoch state_version retry_ordinal =
      if operation == "close"
      then ok (
        join (
            "session:"
            ∷ uuid_text session_id
            ∷ ":state-v"
            ∷ decimal_text (state_version + 1)
            ∷ ":closed"
            ∷ []),
        join (
            "session:"
            ∷ uuid_text session_id
            ∷ ":state-v"
            ∷ decimal_text (state_version + 2)
            ∷ ":processing"
            ∷ []),
      )
      else if operation == "retry"
      then ok (
        join (
            "session:"
            ∷ uuid_text session_id
            ∷ ":epoch:"
            ∷ decimal_text generation_epoch
            ∷ ":retry:"
            ∷ decimal_text (retry_ordinal + 1)
            ∷ []),
        join (
            "session:"
            ∷ uuid_text session_id
            ∷ ":state-v"
            ∷ decimal_text (state_version + 1)
            ∷ ":processing"
            ∷ []),
      )
      else err value_error
