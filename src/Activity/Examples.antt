-- ===== src/Activity/Examples.antt =====
-- Concrete inputs for the theorems on activities.
use axit_project.Prelude.{
  ℕ, ◌≡◌, refl, ◌↔◌, List, [], ◌∷◌, String, string_eq, ok, err, some, true, false, length, All,
  arith,
}
use axit_project.Activity.{plan_comment_recipients}
use axit_project.Errors.{Error, value_error}
use axit_project.Json.{Fields}
use axit_project.Activity.Cursor.{encode_event_cursor, decode_event_cursor}
use axit_project.Activity.Cursor.RoundTrip.{is_url_safe, decode_event_cursor-encode_event_cursor}
use axit_project.Activity.Metadata.{Entries, no_entry, entry, words, mapping, safe_audit_metadata}
use axit_project.Activity.Metadata.Safety.{IsAccepted, plain_entries, safe_audit_metadata_iff}
use axit_project.Activity.Keys.{
  Identity, piece_text, event_pieces, build_event_key, starts_with, last_part,
}
use axit_project.Activity.Distinct.{IsPlain, without_colon}
use axit_project.Activity.Injective.{build_event_key-injective}
use mathlib.Core.Path.{subst}
use axit_project.Activity.Recipients.{occurrences, plan_comment_recipients-once}

abbrev team : List ℕ
team = 1 ∷ 2 ∷ 3 ∷ []

-- The first member comments and mentions the second twice.
plan_comment_recipients-once_example :
    (occurrences 2 (plan_comment_recipients 1 team (2 ∷ 9 ∷ 2 ∷ [])).mention ≡ 1)
    × (occurrences 2 (plan_comment_recipients 1 team (2 ∷ 9 ∷ 2 ∷ [])).comment ≡ 0)
plan_comment_recipients-once_example = plan_comment_recipients-once 1 team (2 ∷ 9 ∷ 2 ∷ []) 2

abbrev each_name : String → String
each_name name = name

abbrev plain_identity : Identity
plain_identity name = some "17"

plain_identity-IsPlain : IsPlain plain_identity
plain_identity-IsPlain name value given =
    let same : "17" ≡ value = ground arith in subst (λ v. without_colon v ≡ true) same refl

room_key : build_event_key "room.member_left" plain_identity false ≡ ok "room:17:member:17:left"
unfolding build_event_key starts_with last_part
room_key = refl

build_event_key-injective_example :
    (◌≡◌ {A = String} "room.member_left" "room.member_left")
    × (false ≡ false
        → All
            (λ p. piece_text plain_identity p ≡ piece_text plain_identity p)
            (event_pieces "room.member_left" false))
build_event_key-injective_example =
    build_event_key-injective plain_identity plain_identity plain_identity-IsPlain
      plain_identity-IsPlain "room.member_left" "room.member_left" false false
      "room:17:member:17:left" room_key room_key

decode_event_cursor-encode_event_cursor_example :
    (decode_event_cursor (encode_event_cursor 7) ≡ ok 7)
    × (length (encode_event_cursor 7) ≡ 22)
    × All (λ c. is_url_safe c ≡ true) (encode_event_cursor 7)
decode_event_cursor-encode_event_cursor_example =
    decode_event_cursor-encode_event_cursor 7 (omega arith)

-- A nested key that names a credential.
abbrev leaking : Entries
leaking =
    entry (some "state") (words "open")
      (entry (some "detail") (mapping (entry (some "api_token") (words "x") no_entry)) no_entry)

refuses : safe_audit_metadata each_name leaking ≡ err value_error
unfolding safe_audit_metadata
refuses = refl

safe_audit_metadata_iff_example :
    ((r : Fields)
      → (safe_audit_metadata each_name leaking ≡ ok r)
        ↔ (IsAccepted each_name leaking × (r ≡ plain_entries leaking)))
    × ((e : Error) → safe_audit_metadata each_name leaking ≡ err e → e ≡ value_error)
safe_audit_metadata_iff_example = safe_audit_metadata_iff each_name leaking
