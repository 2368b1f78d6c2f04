-- ===== src/Sandbox.antt =====
-- apps/api/app/sandbox_ipc.py: what passes between the extraction runner and the sandbox.
use axit_project.Prelude.{
  pos, ltb_ℤ, ℕ, Bool, true, false, ◌&&◌, ◌||◌, if◌then◌else◌, not, List, [], ◌∷◌, String, Option,
  code, nat_eq, nat_eqb, leb, text_length, ◌==◌, contains, Result, ok, require, ◌>>◌, string_eq, ℤ,
}
use axit_project.Errors.{Error, value_error}
use axit_project.Json.{Fields}

-- `_ALLOWED_MEDIA_TYPES`
abbrev pub allowed_media_types : List String
allowed_media_types =
    "text/plain" ∷ "application/pdf" ∷ "image/png" ∷ "image/jpeg" ∷ "application/x-hwp"
    ∷ "application/x-hwpx"
    ∷ "application/vnd.openxmlformats-officedocument.wordprocessingml.document"
    ∷ "application/vnd.openxmlformats-officedocument.presentationml.presentation"
    ∷ "application/vnd.openxmlformats-officedocument.spreadsheetml.sheet" ∷ []

pub data SandboxFailureCode : Type 0 where
  input_too_large sandbox_launch_failed parser_timeout parser_log_limit parser_log_output
        parser_crash parser_exit_mismatch parser_output_too_large invalid_parser_output
        staged_input_tampered parser_reported_failure :
      SandboxFailureCode

abbrev pub failure_code_value : SandboxFailureCode → String
failure_code_value input_too_large = "INPUT_TOO_LARGE"
failure_code_value sandbox_launch_failed = "SANDBOX_LAUNCH_FAILED"
failure_code_value parser_timeout = "PARSER_TIMEOUT"
failure_code_value parser_log_limit = "PARSER_LOG_LIMIT"
failure_code_value parser_log_output = "PARSER_LOG_OUTPUT"
failure_code_value parser_crash = "PARSER_CRASH"
failure_code_value parser_exit_mismatch = "PARSER_EXIT_MISMATCH"
failure_code_value parser_output_too_large = "PARSER_OUTPUT_TOO_LARGE"
failure_code_value invalid_parser_output = "INVALID_PARSER_OUTPUT"
failure_code_value staged_input_tampered = "STAGED_INPUT_TAMPERED"
failure_code_value parser_reported_failure = "PARSER_REPORTED_FAILURE"

pub record ParserIdentity : Type 0 where
  pub name : String
  pub version : String

pub record SandboxRequest : Type 0 where
  pub input_bytes : List ℕ
  pub original_filename : String
  pub expected_media_type : String
  pub expected_parser : ParserIdentity

pub record SandboxFailure : Type 0 where
  pub code : SandboxFailureCode
  pub parser_code : Option String
  pub retryable : Option Bool

pub record SandboxExecution : Type 0 where
  pub ok : Bool
  pub payload : Option Fields
  pub failure : Option SandboxFailure
  pub source_sha256 : String
  pub exit_code : Option ℤ
  pub duration_ms : ℤ
  pub stdout_bytes : ℤ
  pub stderr_bytes : ℤ
  pub killed : Bool

-- A Python number: an integer or a finite float in millionths, or a float that is not finite and is
-- positive or not.
pub data Bound : Type 0 where
  finite : ℤ → Bound
  not_finite : Bool → Bound

abbrev pub is_positive : Bound → Bool
is_positive (finite value) = ltb_ℤ (pos 0) value
is_positive (not_finite positive) = positive

abbrev pub is_finite : Bound → Bool
is_finite (finite _) = true
is_finite (not_finite _) = false

-- The sizes are integers.
pub record SandboxPolicy : Type 0 where
  pub max_input_bytes : ℤ
  pub max_output_bytes : ℤ
  pub max_stdout_bytes : ℤ
  pub max_stderr_bytes : ℤ
  pub wall_timeout_seconds : Bound
  pub max_blocks : ℤ
  pub max_block_chars : ℤ
  pub max_total_chars : ℤ

abbrev pub require_bound : Bound → Result Error (Unit {0})
require_bound value =
    require (is_positive value) value_error >> require (is_finite value) value_error

-- `SandboxPolicy.__post_init__`
unfoldable pub new_sandbox_policy : SandboxPolicy → Result Error SandboxPolicy
new_sandbox_policy policy = do
  require_bound (finite policy.max_input_bytes)
  require_bound (finite policy.max_output_bytes)
  require_bound (finite policy.max_stdout_bytes)
  require_bound (finite policy.max_stderr_bytes)
  require_bound policy.wall_timeout_seconds
  require_bound (finite policy.max_blocks)
  require_bound (finite policy.max_block_chars)
  require_bound (finite policy.max_total_chars)
  require (not (ltb_ℤ policy.max_total_chars policy.max_block_chars)) value_error
  ok policy

-- A character that a basename must not have: `/`, `\`, NUL, CR or LF.
abbrev pub is_unsafe : ℕ → Bool
is_unsafe c = contains (47 ∷ 92 ∷ 0 ∷ 13 ∷ 10 ∷ []) c

has_unsafe : String → Bool
has_unsafe String.[] = false
has_unsafe (String.◌∷◌ c s) = is_unsafe (code c) || has_unsafe s

-- `SandboxRequest.__post_init__`
unfoldable pub new_sandbox_request : SandboxRequest → Result Error SandboxRequest
unfolding has_unsafe
new_sandbox_request request = do
  require
      (not (request.original_filename == "")
        && leb (text_length request.original_filename) 255
        && not (has_unsafe request.original_filename))
      value_error
  require (contains allowed_media_types request.expected_media_type) value_error
  ok request

-- `value.replace("\r\n", "\n").replace("\r", "\n")`; the flag says that a CR has just been replaced.
line_feeds : Bool → String → String
line_feeds replaced String.[] = ""
line_feeds replaced (String.◌∷◌ c s) =
    let fresh = line_feeds false s in
    let again = line_feeds true s in
    if nat_eqb (code c) 13
    then String.◌∷◌ "\n" again
    else if nat_eqb (code c) 10 && replaced
    then fresh
    else String.◌∷◌ c fresh

-- `unicodedata.normalize("NFC", …)` is a parameter.
module _ (nfc : String → String) where
  unfoldable pub normalize_text : String → String
  unfolding line_feeds
  normalize_text value = nfc (line_feeds false value)

  -- A model's text has Unicode scalar values only, so it can be encoded.
  unfoldable pub require_normalized_text : String → Result Error (Unit {0})
  require_normalized_text value = do
    require (not (value == "") && leb (text_length value) 128) value_error
    require (normalize_text value == value) value_error

  -- `ParserIdentity` with its `__post_init__`
  unfoldable pub new_parser_identity : String → String → Result Error ParserIdentity
  unfolding require_normalized_text
  new_parser_identity name version = do
    require_normalized_text name
    require_normalized_text version
    ok (record { name = name; version = version })
