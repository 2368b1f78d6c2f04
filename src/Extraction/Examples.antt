-- ===== src/Extraction/Examples.antt =====
-- Concrete inputs for the theorems on the extraction runner.
use axit_project.Prelude.{
  ℕ, ◌≡◌, refl, arith, Bool, true, false, List, [], ◌∷◌, String, Option, none, some, pos, Result,
  ok, err, leb, is_space, text_length,
}
use axit_project.Json.{text, object, Fields, end, field, Chars}
use axit_project.Database.{count_by}
use axit_project.Domain.Models.{succeeded}
use axit_project.Queue.{Tables, ClaimedJob}
use axit_project.Queue.Claim.{ClaimTimes}
use axit_project.Queue.Invariant.{IsWellFormed}
use axit_project.Sandbox.{ParserIdentity, SandboxRequest, SandboxExecution}
use axit_project.Extraction.{Raised, typed, ExtractionSource, Completion}
use axit_project.Extraction.Job.{is_error_code, execute_claimed_job}
use axit_project.Extraction.Completions.{IsTraced, execute_claimed_job-IsTraced}
use axit_project.Extraction.Runner.{run_once}
use axit_project.Extraction.Fence.{run_once-IsWellFormed}

abbrev parser : ParserIdentity
parser = record { name = "plain"; version = "1" }

abbrev no_alnum : ℕ → Bool
no_alnum _ = false

abbrev hash_bytes : List ℕ → String
hash_bytes _ = "00"

abbrev show_uuid : ℕ → String
show_uuid _ = "revision"

abbrev read_uuid : String → Option ℕ
read_uuid _ = some 5

abbrev same_text : String → String
same_text s = s

abbrev load_source : ℕ → Result Raised ExtractionSource
load_source id = ok (record {
  revision_id = id;
  input_bytes = 65 ∷ [];
  original_filename = "a.txt";
  media_type = "text/plain";
  parser = parser;
})

abbrev refuse_request : SandboxRequest → Result Raised SandboxExecution
refuse_request _ = err (typed "PARSER_TIMEOUT" true)

timeout_code : is_error_code no_alnum "PARSER_TIMEOUT" ≡ true
unfolding is_error_code text_length
timeout_code = refl

abbrev extraction_payload : Fields
extraction_payload = field "revision_id" (text "5") (
    field "media_type" (text "text/plain")
      (field "parser" (object (field "name" (text "plain") (field "version" (text "1") end))) end))

abbrev stale_worker : ClaimedJob
stale_worker = record {
  id = 7;
  logical_key = "extract:1";
  kind = "extraction";
  payload = extraction_payload;
  owner = "worker";
  lease_generation = 1;
  lease_token = 40;
  attempt_id = 3;
}

no_spaces : (c : ℕ) → leb 128 c ≡ true → no_alnum c ≡ true → is_space c ≡ false
no_spaces c big h = absurd (ground arith)

load_codes :
    (id : ℕ) (s : String) (retryable : Bool)
    → load_source id ≡ err (typed s retryable)
    → is_error_code no_alnum s ≡ true
load_codes id s retryable e = absurd (ground arith)

refuse_codes :
    (request : SandboxRequest) (s : String) (retryable : Bool)
    → refuse_request request ≡ err (typed s retryable)
    → is_error_code no_alnum s ≡ true
refuse_codes request s retryable e = ground (arith, timeout_code)

execute_claimed_job-IsTraced_example :
    (c : Completion) × (execute_claimed_job no_alnum hash_bytes show_uuid read_uuid same_text
        load_source refuse_request stale_worker
      ≡ ok c)
    × IsTraced no_alnum no_spaces hash_bytes show_uuid read_uuid same_text load_source
        refuse_request load_codes refuse_codes extraction_payload c
execute_claimed_job-IsTraced_example =
    execute_claimed_job-IsTraced no_alnum no_spaces hash_bytes show_uuid read_uuid same_text
      load_source refuse_request load_codes refuse_codes stale_worker

abbrev no_jobs : Tables
no_jobs = record { jobs = []; job_attempts = []; job_results = []; snapshots = [] }

abbrev digest : Chars → String
digest _ = "0"

abbrev done : Completion
done = record { target_state = succeeded; result = end; error_code = none }

abbrev succeed : ClaimedJob → Result Raised Completion
succeed _ = ok done

abbrev nobody : Tables → Tables
nobody db = db

no_jobs-IsWellFormed : IsWellFormed no_jobs
unfolding count_by
no_jobs-IsWellFormed = record {
  one_row = λ id. omega arith;
  one_key = λ key. omega arith;
  attempts_known = λ id e. refl;
  results_known = λ id e. refl;
  consistent = tt;
}

abbrev early : ClaimTimes
early = record { started = 1; selected = 1; ended = 1; granted = 1 }

run_once-IsWellFormed_example :
    IsWellFormed
      (run_once digest succeed nobody early
        (λ _. false)
        41
        4
        60
        150
        200
        "worker"
        (pos 30)
        no_jobs).1
run_once-IsWellFormed_example =
    run_once-IsWellFormed digest succeed nobody 60 150 200 early (λ _. false) 41 4 "worker" (pos 30)
      no_jobs (λ s well. well) no_jobs-IsWellFormed
