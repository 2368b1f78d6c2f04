-- ===== src/Lib.antt =====
-- A verification library for the AXit backend (apps/api/app): the durable job queue, the lease and
-- session policies around it, the services that close, reopen and retry a session, the ledger of
-- audit events, the grounding of summaries, and the canonical JSON that results are hashed over.
--
-- How the program fits together. A talk session is opened, collects source revisions, and is closed
-- on a snapshot of them; workers then extract, summarise and research, each by a job of the durable
-- queue. A worker claims a job under a generation and a token, works outside of any transaction, and
-- completes the job in one transaction that is fenced on that generation and token. The result that
-- a host sees is projected from the two generation runs.
--
-- Which file models what:
--   * Domain/Models: apps/api/app/domain/models.py, the states; Domain/Models/Records: its value
--     objects, where a function `new_…` is the constructor with its `__post_init__`.
--   * Domain/Leases: apps/api/app/domain/queue.py. Fencing and Succession hold its theorems.
--   * Domain/Lifecycle, Domain/Close, Domain/Projection: apps/api/app/domain/policies.py, the state
--     graph with the actor checks, the close decision, and the projection of the two runs.
--   * Json: `canonical_json_bytes` of apps/api/app/queue_repository.py.
--   * Queue: apps/api/app/queue_repository.py over the tables of
--     apps/api/alembic/versions/0001_durable_core.py: Checks (arguments and rows), Enqueue
--     (`enqueue`, `fetch_job`, `result_count`), Claim (`claim_next`), Complete (`heartbeat`,
--     `complete_with_effects`, `requeue_retryable`); Invariant and its children, Traces, Atomic,
--     Granting, Changed and Completed hold the theorems.
--   * Sandbox: the request and the outcome of apps/api/app/sandbox_ipc.py.
--   * Extraction: apps/api/app/orchestrator_runner.py; Job is `_execute_claimed_job` and what it
--     calls, Runner is `run_once`, Completions and Fence hold the theorems.
--   * Generation: `GenerationExecution` of apps/api/app/generation_runner.py; Generation/Worker: a
--     round of apps/api/app/generation_worker.py; Cap and Rounds hold its theorems.
--   * Grounding: `ground_live_summary` of apps/api/app/summary_grounding.py; Candidate holds its
--     values, Spans what is proved of its searches and sets, and Sound its theorem.
--   * Session: the tables of apps/api/app/session_service.py and session_retry_service.py. Rows
--     (the query on the current revisions, the pins, and each INSERT under its constraints), Writes
--     (the rows a close writes) and Events (what is recorded) serve Close, Reopen and Retry, the
--     services' methods; Quiet, Steps, Closing, Closed, Requeue, Rewritten and Retrying say what the
--     steps of a call that returned wrote; Sound and its children hold the invariant and the theorems.
--   * Activity: apps/api/app/activity_policy.py, recipients of comments, the keys of events (Keys;
--     Distinct, Readable and Injective hold their theorem) and `safe_audit_metadata` (Metadata);
--     Cursor: the event cursor of apps/api/app/activity_pagination.py; Ledger: `append` and `record`
--     of activity_repository.py and activity_service.py, without notification effects.
--   * Database: programs on tables that may raise, transactions, and UPDATE with its row count.
--   * Errors, Time: the exceptions, and `datetime` with constant offsets.
--   * Prelude: numbers, lists, texts, results, sorting and permutations that the others share.
-- A module Examples holds concrete inputs.
--
-- Conventions. A Python function that raises returns a Result; a method of a repository is a program
-- on the tables, and each SQL statement in it is a function on them. A transaction whose body raises
-- leaves the tables as they were; statements of one transaction run without others in between, and a
-- claim is told which rows other transactions have locked. A UUID is a number, and those that
-- `uuid4` draws are arguments, as is every reading of the clock, in microseconds. A text column that
-- the code reads back keeps its value; a text that is sent to one holds no NUL, while the result of
-- a job may, and `jsonb` refuses it. SHA-256, NFC, the text of a UUID and Unicode's alphanumeric
-- characters are parameters, as are the loader and the sandbox. The CHECK constraints of the queue's
-- tables are not enforced by the operations; those on leases and error codes are part of the
-- invariant. Those of the ledger, the case mapping `str.lower` and the searches for the regular
-- expressions of the grounding are parameters.
--
-- Bounds. The attempt counter and the generation are PostgreSQL's INTEGER, so a claim past 2147483647
-- raises. `digits_of` runs on fuel: a number n has at most n + 1 digits, and n + 1 rounds are given.
-- `datetime.max` bounds a lease's end. No other definition uses fuel.
--
-- Not modelled: the messages of exceptions, the web routes, the providers, the document parsers and
-- the check of their output, the generation runner and its repository, notifications, the list of
-- audit events, submissions and comments, the fixture path `ground_summary`, the frontend and the
-- generated contracts. INTEGER columns of the session tables are unbounded.
mod Prelude
pub mod Errors
pub mod Time
pub mod Domain
pub mod Json
pub mod Database
pub mod Queue
pub mod Sandbox
pub mod Session
pub mod Generation
pub mod Grounding
pub mod Extraction
pub mod Activity
