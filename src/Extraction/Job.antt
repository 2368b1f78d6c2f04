-- ===== src/Extraction/Job.antt =====
-- apps/api/app/orchestrator_runner.py: `_execute_claimed_job` and the functions below it.
use axit_project.Prelude.{
  ℕ, Bool, true, false, ◌&&◌, ◌||◌, not, List, [], ◌∷◌, String, code, Option, none, some, leb,
  nat_eqb, text_length, ◌==◌, if◌then◌else◌, pos, pos_part, Result, ok, err, require, ◌>>=◌, ◌>>◌,
  string_eq, nat_eq,
}
use axit_project.Json.{text, integer, Fields, end, field}
use axit_project.Domain.Models.{succeeded, failed_retryable, failed_terminal}
use axit_project.Domain.Projection.{code_or}
use axit_project.Queue.{ClaimedJob}
use axit_project.Sandbox.{
  failure_code_value, SandboxRequest, SandboxFailure, SandboxExecution, new_sandbox_request,
  new_parser_identity,
}
use axit_project.Extraction.{
  Raised, typed, untyped, ExtractionSource, ExtractionJobPayload, Completion, lookup, has_keys,
  as_text, as_mapping, as_list, items_length, is_retryable_code, parsers_equal, is_sha256, given,
  invalid_payload, invalid_outcome, otherwise,
}

-- `str.isalnum` on a character above ASCII is a parameter.
module _ (above_ascii : ℕ → Bool) where
  abbrev pub is_alnum : ℕ → Bool
  is_alnum c =
      if leb 128 c
      then above_ascii c
      else (leb 48 c && leb c 57) || (leb 65 c && leb c 90) || (leb 97 c && leb c 122)

  unfoldable pub all_alnum : String → Bool
  all_alnum String.[] = true
  all_alnum (String.◌∷◌ c s) = (nat_eqb (code c) 95 || is_alnum (code c)) && all_alnum s

  unfoldable pub some_alnum : String → Bool
  some_alnum String.[] = false
  some_alnum (String.◌∷◌ c s) = not (nat_eqb (code c) 95) || some_alnum s

  -- `code.replace("_", "").isalnum()`: what is left has a character, and all are alphanumeric.
  unfoldable pub is_error_code : String → Bool
  unfolding all_alnum some_alnum
  is_error_code s = not (s == "") && leb (text_length s) 128 && some_alnum s && all_alnum s

  unfoldable pub require_error_code : String → Result Raised (Unit {0})
  unfolding is_error_code
  require_error_code s = require (is_error_code s) untyped

  unfoldable pub failed_completion : String → Bool → Result Raised Completion
  unfolding require_error_code
  failed_completion error_code retryable = do
    require_error_code error_code
    ok (record {
      target_state = if retryable then failed_retryable else failed_terminal;
      result = field "outcome" (text "failed") end;
      error_code = some error_code;
    })

-- `UUID(…)` on a text, which may refuse it, and NFC are parameters.
module _ (parse_uuid : String → Option ℕ) (nfc : String → String) where
  unfoldable pub parse_extraction_payload : Fields → Result Raised ExtractionJobPayload
  parse_extraction_payload payload = do
    require (has_keys ("revision_id" ∷ "media_type" ∷ "parser" ∷ []) payload) invalid_payload
    revision_value ← given (as_text (lookup "revision_id" payload)) invalid_payload
    media_type ← given (as_text (lookup "media_type" payload)) invalid_payload
    parser_value ← given (as_mapping (lookup "parser" payload)) invalid_payload
    require (has_keys ("name" ∷ "version" ∷ []) parser_value) invalid_payload
    parser_name ← given (as_text (lookup "name" parser_value)) invalid_payload
    parser_version ← given (as_text (lookup "version" parser_value)) invalid_payload
    revision_id ← given (parse_uuid revision_value) invalid_payload
    parser ← otherwise invalid_payload (new_parser_identity nfc parser_name parser_version)
    ok (record { revision_id = revision_id; media_type = media_type; parser = parser })

-- `source.input_bytes` are bytes by its type.
unfoldable pub validate_loaded_source :
    ExtractionJobPayload → ExtractionSource → Result Raised (Unit {0})
validate_loaded_source payload source = do
  require (source.revision_id == payload.revision_id) (typed "SOURCE_REVISION_MISMATCH" false)
  require (source.media_type == payload.media_type && parsers_equal source.parser payload.parser)
      (typed "SOURCE_EXPECTATION_MISMATCH" false)

-- `hashlib.sha256(…).hexdigest()` of bytes and `str` of a UUID are parameters.
module _ (above_ascii : ℕ → Bool) (sha256 : List ℕ → String) (uuid_text : ℕ → String) where
  unfoldable pub completion_of_failure : Option SandboxFailure → Result Raised Completion
  unfolding failed_completion
  completion_of_failure none = err invalid_outcome
  completion_of_failure (some failure) =
      let error_code = code_or failure.parser_code (failure_code_value failure.code) in
      require_error_code above_ascii error_code
      >> failed_completion above_ascii error_code (elim failure.retryable [
        | none ↦ is_retryable_code failure.code
        | some retryable ↦ retryable
      ])

  unfoldable pub completion_of_success :
      ExtractionJobPayload → ExtractionSource → SandboxExecution → Result Raised Completion
  completion_of_success payload source execution = do
    let expected_sha256 = sha256 source.input_bytes
    require (execution.source_sha256 == expected_sha256) invalid_outcome
    outcome ← given execution.payload invalid_outcome
    result ← given (as_mapping (lookup "result" outcome)) invalid_outcome
    result_source_hash ← given (as_text (lookup "source_sha256" result)) invalid_outcome
    require (result_source_hash == expected_sha256) invalid_outcome
    anchor_set_hash ← given (as_text (lookup "anchor_set_hash" result)) invalid_outcome
    require (is_sha256 anchor_set_hash) invalid_outcome
    blocks ← given (as_list (lookup "blocks" result)) invalid_outcome
    ok (record {
      target_state = succeeded;
      result = field "revision_id" (text (uuid_text payload.revision_id)) (
          field "source_sha256" (text expected_sha256) (
            field "anchor_set_hash" (text anchor_set_hash) (
              field "block_count" (integer (pos (items_length blocks)))
                (field "duration_ms" (integer (pos (pos_part execution.duration_ms))) end))));
      error_code = none;
    })

  unfoldable pub completion_from_sandbox :
      ExtractionJobPayload → ExtractionSource → SandboxExecution → Result Raised Completion
  unfolding completion_of_failure completion_of_success
  completion_from_sandbox payload source execution =
      if execution.ok
      then completion_of_success payload source execution
      else completion_of_failure execution.failure

  -- The handlers of `_execute_claimed_job`. What they raise themselves is not caught.
  unfoldable pub handled : Result Raised Completion → Result Raised Completion
  unfolding failed_completion
  handled (ok completion) = ok completion
  handled (err (typed error_code retryable)) = failed_completion above_ascii error_code retryable
  handled (err untyped) = failed_completion above_ascii "EXTRACTION_RUNNER_FAILURE" true

  -- The injected source loader and sandbox adapter.
  module _ (parse_uuid : String → Option ℕ) (nfc : String → String)
      (load : ℕ → Result Raised ExtractionSource)
      (execute : SandboxRequest → Result Raised SandboxExecution) where
    unfoldable pub attempt_job : Fields → Result Raised Completion
    unfolding parse_extraction_payload validate_loaded_source completion_from_sandbox
    attempt_job job_payload = do
      payload ← parse_extraction_payload parse_uuid nfc job_payload
      source ← load payload.revision_id
      validate_loaded_source payload source
      request ← otherwise untyped (
          new_sandbox_request (record {
            input_bytes = source.input_bytes;
            original_filename = source.original_filename;
            expected_media_type = payload.media_type;
            expected_parser = payload.parser;
          }))
      execution ← execute request
      completion_from_sandbox payload source execution

    unfoldable pub execute_claimed_job : ClaimedJob → Result Raised Completion
    unfolding attempt_job handled
    execute_claimed_job claimed = handled (attempt_job claimed.payload)
