-- ===== src/Extraction/Completions.antt =====
-- What the extraction runner asks the queue to persist.
use axit_project.Prelude.{
  ℕ, ◌≡◌, refl, inl, inr, Bool, true, false, ◌||◌, List, String, code, Option, none, some, leb,
  arith, is_space, is_blank, text_length, Result, Result-cases, Bool-cases, ok, err, ◌>>=◌, ◌>>◌,
  nat_eq, string_eq, nat_eqb, if◌then◌else◌,
}
use axit_project.Json.{text, Fields, end, field}
use axit_project.Domain.Models.{job_state_eq, succeeded, failed_retryable, failed_terminal}
use axit_project.Queue.{ClaimedJob}
use axit_project.Queue.Checks.{check_completion}
use axit_project.Sandbox.{SandboxRequest, SandboxExecution, SandboxFailure, new_sandbox_request}
use axit_project.Extraction.{
  Raised, typed, untyped, ExtractionSource, ExtractionJobPayload, Completion, lookup, otherwise,
}
use axit_project.Extraction.Job.{
  is_alnum, all_alnum, some_alnum, is_error_code, require_error_code, failed_completion,
  parse_extraction_payload, validate_loaded_source, completion_of_failure, completion_of_success,
  completion_from_sandbox, handled, attempt_job, execute_claimed_job,
}

-- The queue accepts the state and the error code.
abbrev IsAccepted : Completion → Type 0
IsAccepted c = check_completion c.target_state c.error_code ≡ ok tt

module _ (above_ascii : ℕ → Bool)
    (no_spaces : (c : ℕ) → leb 128 c ≡ true → above_ascii c ≡ true → is_space c ≡ false) where
  alnum_not_space : (c : ℕ) → (nat_eqb c 95 || is_alnum above_ascii c) ≡ true → is_space c ≡ false
  unfolding is_space
  alnum_not_space c h = ground (arith, no_spaces c)

  error_code_not_blank :
      (s : String)
      → some_alnum above_ascii s ≡ true
      → all_alnum above_ascii s ≡ true
      → is_blank s ≡ false
  unfolding is_blank some_alnum all_alnum
  error_code_not_blank String.[] h k = ground arith
  error_code_not_blank (String.◌∷◌ c s) h k = ground (arith, alnum_not_space (code c))

  failure_IsAccepted :
      (s : String) (retryable : Bool)
      → is_error_code above_ascii s ≡ true
      → check_completion (if retryable then failed_retryable else failed_terminal) (some s) ≡ ok tt
  unfolding check_completion is_error_code
  failure_IsAccepted s retryable h = ground (arith, error_code_not_blank s)

  -- A result with what holds of its value; a typed failure has a code that can be persisted.
  abbrev Fits : {A : Type 0} → (A → Type 0) → Result Raised A → Type 0
  Fits Q (ok a) = Q a
  Fits Q (err (typed s _)) = is_error_code above_ascii s ≡ true
  Fits Q (err untyped) = Unit {0}

  abbrev failure_record : String → Bool → Completion
  failure_record s retryable = record {
    target_state = if retryable then failed_retryable else failed_terminal;
    result = field "outcome" (text "failed") end;
    error_code = some s;
  }

  -- Every typed failure of a step has such a code.
  abbrev HasCodes : {A : Type 0} → Result Raised A → Type 0
  HasCodes r =
      (s : String) (retryable : Bool)
      → r ≡ err (typed s retryable)
      → is_error_code above_ascii s ≡ true

  then_Fits :
      {A B : Type 0} (Q : B → Type 0) (r : Result Raised A) (f : A → Result Raised B)
      → HasCodes r
      → ((a : A) → r ≡ ok a → Fits Q (f a))
      → Fits Q (r >>= f)
  then_Fits Q (ok a) f codes next = next a refl
  then_Fits Q (err (typed s retryable)) f codes next = codes s retryable refl
  then_Fits Q (err untyped) f codes next = tt

  map_Fits :
      {A : Type 0} {P Q : A → Type 0} (r : Result Raised A)
      → ((a : A) → P a → Q a)
      → Fits P r
      → Fits Q r
  map_Fits (ok a) f h = f a h
  map_Fits (err (typed s retryable)) f h = h
  map_Fits (err untyped) f h = h

  invalid_payload_code : is_error_code above_ascii "INVALID_JOB_PAYLOAD" ≡ true
  unfolding is_error_code text_length
  invalid_payload_code = refl

  parse-HasCodes :
      (parse_uuid : String → Option ℕ) (nfc : String → String) (payload : Fields)
      → HasCodes (parse_extraction_payload parse_uuid nfc payload)
  unfolding parse_extraction_payload
  parse-HasCodes parse_uuid nfc payload s retryable h = ground (arith, invalid_payload_code)

  mismatch_codes :
      (is_error_code above_ascii "SOURCE_REVISION_MISMATCH" ≡ true)
      × (is_error_code above_ascii "SOURCE_EXPECTATION_MISMATCH" ≡ true)
      × (is_error_code above_ascii "INVALID_SANDBOX_OUTCOME" ≡ true)
      × (is_error_code above_ascii "EXTRACTION_RUNNER_FAILURE" ≡ true)
  unfolding is_error_code text_length
  mismatch_codes = (refl, refl, refl, refl)

  validate-HasCodes :
      (payload : ExtractionJobPayload) (source : ExtractionSource)
      → HasCodes (validate_loaded_source payload source)
  unfolding validate_loaded_source
  validate-HasCodes payload source s retryable h = ground (arith, mismatch_codes)

  request-HasCodes :
      (request : SandboxRequest) → HasCodes (otherwise untyped (new_sandbox_request request))
  request-HasCodes request s retryable h = elim (Result-cases (new_sandbox_request request)) [
    | inl (r, e) ↦ absurd (ground arith)
    | inr (x, e) ↦ absurd (ground arith)
  ]

  value_Fits :
      {A : Type 0} (Q : A → Type 0) (r : Result Raised A)
      → ((a : A) → r ≡ ok a → Q a)
      → HasCodes r
      → Fits Q r
  value_Fits Q (ok a) value codes = value a refl
  value_Fits Q (err (typed s retryable)) value codes = codes s retryable refl
  value_Fits Q (err untyped) value codes = tt

  module _ (sha256 : List ℕ → String) (uuid_text : ℕ → String) where
    -- The sandbox is asked to read the source's bytes as what the payload names.
    pub record IsRequest (p : ExtractionJobPayload) (source : ExtractionSource)
        (request : SandboxRequest) : Type 0 where
      pub bytes : request.input_bytes ≡ source.input_bytes
      pub filename : request.original_filename ≡ source.original_filename
      pub media_type : request.expected_media_type ≡ p.media_type
      pub parser : request.expected_parser ≡ p.parser

    request_lem :
        (p : ExtractionJobPayload) (source : ExtractionSource) (request : SandboxRequest)
        → otherwise untyped (
            new_sandbox_request (record {
              input_bytes = source.input_bytes;
              original_filename = source.original_filename;
              expected_media_type = p.media_type;
              expected_parser = p.parser;
            }))
          ≡ ok request
        → IsRequest p source request
    unfolding new_sandbox_request
    request_lem p source request e = ground arith

    -- A success is the sandbox's, on the very bytes that were loaded, and its result says so.
    pub record IsSound (p : ExtractionJobPayload) (source : ExtractionSource) (x : SandboxExecution)
        (c : Completion) : Type 0 where
      pub ran : x.ok ≡ true
      pub same_bytes : x.source_sha256 ≡ sha256 source.input_bytes
      pub says_bytes : lookup "source_sha256" c.result ≡ some (text (sha256 source.input_bytes))
      pub says_revision : lookup "revision_id" c.result ≡ some (text (uuid_text p.revision_id))

    abbrev IsAnswer :
        ExtractionJobPayload → ExtractionSource → SandboxExecution → Completion → Type 0
    IsAnswer p source x c = IsAccepted c × (c.target_state ≡ succeeded → IsSound p source x c)

    failed_answers :
        (p : ExtractionJobPayload) (source : ExtractionSource) (x : SandboxExecution) (s : String)
        (retryable : Bool)
        → Fits
            (IsAnswer p source x)
            (require_error_code above_ascii s >> failed_completion above_ascii s retryable)
    unfolding failed_completion require_error_code
    failed_answers p source x s retryable = elim (Bool-cases (is_error_code above_ascii s)) [
      | inl e ↦ rw e (failure_IsAccepted s retryable e, λ same. absurd (ground arith))
      | inr e ↦ rw e tt
    ]

    failure_answers :
        (p : ExtractionJobPayload) (source : ExtractionSource) (x : SandboxExecution)
        (f : Option SandboxFailure)
        → Fits (IsAnswer p source x) (completion_of_failure above_ascii sha256 uuid_text f)
    unfolding completion_of_failure
    failure_answers p source x none = mismatch_codes.2
    failure_answers p source x (some f) = failed_answers p source x _ _

    success-HasCodes :
        (p : ExtractionJobPayload) (source : ExtractionSource) (x : SandboxExecution)
        → HasCodes (completion_of_success above_ascii sha256 uuid_text p source x)
    unfolding completion_of_success
    success-HasCodes p source x s retryable e = ground (arith, mismatch_codes)

    success_answers :
        (p : ExtractionJobPayload) (source : ExtractionSource) (x : SandboxExecution)
        → x.ok ≡ true
        → (c : Completion) → completion_of_success above_ascii sha256 uuid_text p source x ≡ ok c
        → IsAnswer p source x c
    unfolding completion_of_success check_completion
    success_answers p source x ran c e = (
      ground arith,
      λ same. record {
        ran = ran;
        same_bytes = ground (arith, string_eq.beq_iff x.source_sha256 (sha256 source.input_bytes));
        says_bytes = ground arith;
        says_revision = ground arith;
      },
    )

    sandbox_answers :
        (p : ExtractionJobPayload) (source : ExtractionSource) (x : SandboxExecution)
        → Fits
            (IsAnswer p source x)
            (completion_from_sandbox above_ascii sha256 uuid_text p source x)
    unfolding completion_from_sandbox
    sandbox_answers p source x = by_outcome x.ok refl
      where
        by_outcome :
            (b : Bool)
            → x.ok ≡ b
            → Fits (IsAnswer p source x) (
                if b
                then completion_of_success above_ascii sha256 uuid_text p source x
                else completion_of_failure above_ascii sha256 uuid_text x.failure)
        by_outcome true e =
            value_Fits _ _ (success_answers p source x e) (success-HasCodes p source x)
        by_outcome false e = failure_answers p source x x.failure

    module _ (parse_uuid : String → Option ℕ) (nfc : String → String)
        (load : ℕ → Result Raised ExtractionSource)
        (execute : SandboxRequest → Result Raised SandboxExecution)
        (load_codes : (id : ℕ) → HasCodes (load id))
        (execute_codes : (request : SandboxRequest) → HasCodes (execute request)) where
      -- A completion, and for a success the steps that it rests on.
      pub record IsTraced (job_payload : Fields) (c : Completion) : Type 0 where
        pub accepted : IsAccepted c
        pub traced :
            c.target_state ≡ succeeded
            → (p : ExtractionJobPayload) × (source : ExtractionSource) × (request : SandboxRequest)
              × (x : SandboxExecution) × (parse_extraction_payload parse_uuid nfc job_payload
                  ≡ ok p)
              × (load p.revision_id ≡ ok source)
              × (validate_loaded_source p source ≡ ok tt)
              × IsRequest p source request
              × (execute request ≡ ok x)
              × IsSound p source x c

      attempt-IsTraced :
          (job_payload : Fields)
          → Fits
              (IsTraced job_payload)
              (attempt_job above_ascii sha256 uuid_text parse_uuid nfc load execute job_payload)
      unfolding attempt_job
      attempt-IsTraced job_payload =
          then_Fits _ (parse_extraction_payload parse_uuid nfc job_payload) _
            (parse-HasCodes parse_uuid nfc job_payload)
            λ p parsed.
              then_Fits _ (load p.revision_id) _ (load_codes p.revision_id) λ source loaded.
                then_Fits _ (validate_loaded_source p source) _ (validate-HasCodes p source)
                  λ _ valid. then_Fits _ _ _ (request-HasCodes _) λ request made.
                    then_Fits _ (execute request) _ (execute_codes request) λ x executed.
                      map_Fits (completion_from_sandbox above_ascii sha256 uuid_text p source x)
                        (λ c (accepted, sound). record {
                          accepted = accepted;
                          traced = λ same. (
                            p,
                            source,
                            request,
                            x,
                            parsed,
                            loaded,
                            valid,
                            request_lem p source request made,
                            executed,
                            sound same,
                          );
                        })
                        (sandbox_answers p source x)

      handled-IsTraced :
          (job_payload : Fields) (r : Result Raised Completion)
          → Fits (IsTraced job_payload) r
          → (c : Completion) × (handled above_ascii sha256 uuid_text r ≡ ok c)
            × IsTraced job_payload c
      unfolding handled failed_completion require_error_code
      handled-IsTraced job_payload (ok c) h = (c, refl, h)
      handled-IsTraced job_payload (err (typed s retryable)) h = (
        failure_record s retryable,
        ground arith,
        record {
          accepted = failure_IsAccepted s retryable h;
          traced = λ same. absurd (ground arith);
        },
      )
      handled-IsTraced job_payload (err untyped) h = (
        failure_record "EXTRACTION_RUNNER_FAILURE" true,
        ground (arith, mismatch_codes),
        record {
          accepted = failure_IsAccepted "EXTRACTION_RUNNER_FAILURE" true mismatch_codes.3;
          traced = λ same. absurd (ground arith);
        },
      )

      -- When the loader and the sandbox raise typed failures with valid codes only, and no
      -- alphanumeric character above ASCII is a space, executing a claimed job always returns a
      -- completion, and the queue accepts its state and error code. For a success the payload was
      -- parsed, the source loaded and found to be the payload's, the sandbox called on the loaded
      -- bytes with the payload's media type and parser; it answered with a success on bytes of their
      -- hash, and the result carries that hash and the revision.
      pub execute_claimed_job-IsTraced :
          (claimed : ClaimedJob)
          → (c : Completion) × (execute_claimed_job above_ascii sha256 uuid_text parse_uuid nfc load
                execute claimed
              ≡ ok c)
            × IsTraced claimed.payload c
      unfolding execute_claimed_job
      execute_claimed_job-IsTraced claimed =
          handled-IsTraced claimed.payload _ (attempt-IsTraced claimed.payload)
