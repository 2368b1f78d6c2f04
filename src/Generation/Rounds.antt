-- ===== src/Generation/Rounds.antt =====
-- What a round of the generation worker does to the queue's tables.
use mathlib.Core.Path.{subst}
use axit_project.Prelude.{
  ℕ, ◌≡◌, refl, sym, inl, inr, Bool, true, false, if◌then◌else◌, ◌&&◌, not, List, String, Option,
  none, some, ◌==◌, ltb, ℤ, pos, contains, all_by, Result, ok, err, require, Bool-cases, arith,
  string_eq,
}
use axit_project.Errors.{Error, value_error, stale_lease_error}
use axit_project.Json.{Chars, text, end, field}
use axit_project.Database.{Exec, pure, lift_keeps, then_keeps, continue}
use axit_project.Domain.Models.{failed_retryable, failed_terminal, job_state_eq}
use axit_project.Domain.Close.{is_empty}
use axit_project.Queue.{Tables, ClaimedJob}
use axit_project.Queue.Claim.{ClaimTimes, claim_next}
use axit_project.Queue.Complete.{complete, requeue_retryable}
use axit_project.Queue.Invariant.{IsWellFormed}
use axit_project.Queue.Invariant.Claim.{claim_next-IsWellFormed}
use axit_project.Queue.Invariant.Leases.{requeue_retryable-IsWellFormed}
use axit_project.Queue.Invariant.Effects.{
  InsertsOnly, nothing_InsertsOnly, complete_with_effects-IsWellFormed,
}
use axit_project.Extraction.Runner.{unless_stale}
use axit_project.Extraction.Fence.{unless_stale_writes}
use axit_project.Generation.{GenerationExecution, generation_kinds}
use axit_project.Generation.Worker.{
  GenerationWorkerOutcome, Executed, executed, FinishTimes, cap_research_retries, execute_safely,
  complete_claim, retry_research, after_completion, finish_claim, run_generation_once, failure_code,
  is_retryable,
}
use axit_project.Generation.Cap.{IsValid, cap_research_retries-given}

module _ {C : Type 0} (parse_uuid : String → Option ℕ) (uuid_text : ℕ → String)
    (digest : Chars → String) (execute : ClaimedJob → Executed C)
    (effect : GenerationExecution C → Exec Tables (Unit {0}))
    (interlude meanwhile : Tables → Tables) where
  abbrev finish_with : FinishTimes → Option ClaimedJob → Exec Tables GenerationWorkerOutcome
  finish_with = finish_claim parse_uuid uuid_text digest execute effect interlude meanwhile

  abbrev complete_with :
      FinishTimes → ClaimedJob → Option (GenerationExecution C) → Exec Tables (Unit {0})
  complete_with = complete_claim parse_uuid uuid_text digest execute effect interlude meanwhile

  abbrev after_with :
      FinishTimes
      → ClaimedJob
      → Option (GenerationExecution C)
      → Bool
      → Exec Tables GenerationWorkerOutcome
  after_with = after_completion parse_uuid uuid_text digest execute effect interlude meanwhile

  nothing_requeued :
      (times : FinishTimes) (claimed : ClaimedJob) (y : GenerationExecution C) (b : Bool)
      (db : Tables)
      → (claimed.kind == "research" && y.target_state == failed_retryable) ≡ false
      → (after_with times claimed (some y) b db).1 ≡ db
  unfolding after_completion retry_research
  nothing_requeued times claimed y true db h =
      elim (Bool-cases (y.target_state == failed_retryable)) [
        | inl failed ↦ elim (Bool-cases (claimed.kind == "research")) [
          | inl research ↦ absurd (ground (arith, h, failed, research))
          | inr other ↦ rw (failed, other) refl
        ]
        | inr other ↦ rw other refl
      ]
  nothing_requeued times claimed y false db h = refl

  -- Whether or not the completion was stale.
  after_unless_stale :
      (times : FinishTimes) (claimed : ClaimedJob) (y : GenerationExecution C)
      (r : Result Error (Unit {0}) × Tables)
      → (claimed.kind == "research" && y.target_state == failed_retryable) ≡ false
      → (continue (after_with times claimed (some y)) (unless_stale r)).1 ≡ r.1
  unfolding after_completion
  after_unless_stale times claimed y (ok _, t) h = nothing_requeued times claimed y true t h
  after_unless_stale times claimed y (err stale_lease_error, t) h = refl
  after_unless_stale times claimed y (err e, t) h = refl

  -- The automatic retries of research are bounded: a job whose execution passed its checks is
  -- completed as retryable only below the third generation, or when it is no research, and from the
  -- third generation on the round writes nothing after its completion.
  pub finish_claim-bounded :
      (times : FinishTimes) (claimed : ClaimedJob) (x : GenerationExecution C) (db : Tables)
      → execute claimed ≡ executed x
      → IsValid x
      → (y : GenerationExecution C) × IsValid y
        × ((y.target_state == failed_retryable) ≡ (
            x.target_state == failed_retryable
            && not (claimed.kind == "research" && not (ltb claimed.lease_generation 3))))
        × ((claimed.kind == "research" && ltb claimed.lease_generation 3) ≡ false
            → (finish_with times (some claimed) db).1
              ≡ (complete_with times claimed (some y) (interlude db)).1)
  unfolding finish_claim
  finish_claim-bounded times claimed x db ran valid =
      let (y, capped, still_valid, target) = cap_research_retries-given x claimed valid in
      let safely : execute_safely parse_uuid uuid_text (execute claimed) claimed ≡ ok (some x) =
        unfold execute_safely in rw ran refl in
      (
        y,
        still_valid,
        target,
        λ late.
            rw (safely, capped)
              (after_unless_stale times claimed y
                (complete_with times claimed (some y) (interlude db))
                (ground (arith, target, late))),
      )

  module _ (others : (s : Tables) → IsWellFormed s → IsWellFormed (interlude s))
      (later : (s : Tables) → IsWellFormed s → IsWellFormed (meanwhile s))
      (only : (x : GenerationExecution C) → InsertsOnly (effect x)) where
    retry_research-IsWellFormed :
        (times : FinishTimes) (claimed : ClaimedJob) (db : Tables)
        → IsWellFormed db
        → IsWellFormed
            (retry_research parse_uuid uuid_text digest execute effect interlude meanwhile times
              claimed db).1
    unfolding retry_research
    retry_research-IsWellFormed times claimed db h =
        elim (Bool-cases (claimed.kind == "research")) [
          | inl research ↦ rw research (
              subst IsWellFormed
                (sym (
                  unless_stale_writes (
                    requeue_retryable claimed.id (pos claimed.lease_generation) times.requeued
                      (meanwhile db))))
                (requeue_retryable-IsWellFormed claimed.id (pos claimed.lease_generation)
                  times.requeued (meanwhile db) (later db h)))
          | inr other ↦ rw other h
        ]

    after_completion-IsWellFormed :
        (times : FinishTimes) (claimed : ClaimedJob) (y : Option (GenerationExecution C)) (b : Bool)
        (db : Tables)
        → IsWellFormed db
        → IsWellFormed (after_with times claimed y b db).1
    unfolding after_completion
    after_completion-IsWellFormed times claimed y false db h = h
    after_completion-IsWellFormed times claimed y true db h =
        then_keeps IsWellFormed
          (if is_retryable parse_uuid uuid_text digest execute effect interlude meanwhile y
            then retry_research parse_uuid uuid_text digest execute effect interlude meanwhile times
                claimed
            else pure true)
          _ db
          (chosen (is_retryable parse_uuid uuid_text digest execute effect interlude meanwhile y))
          λ _ t w. w
      where
        chosen :
            (b : Bool)
            → IsWellFormed
                ((if b
                    then retry_research parse_uuid uuid_text digest execute effect interlude
                        meanwhile times claimed
                    else pure true)
                  db).1
        chosen true = retry_research-IsWellFormed times claimed db h
        chosen false = h

    complete_claim-IsWellFormed :
        (times : FinishTimes) (claimed : ClaimedJob) (y : Option (GenerationExecution C))
        (db : Tables)
        → IsWellFormed db
        → IsWellFormed (complete_with times claimed y db).1
    unfolding complete_claim complete
    complete_claim-IsWellFormed times claimed none db h =
        complete_with_effects-IsWellFormed digest claimed failed_terminal
          (field "outcome" (text "failed") (field "error_code" (text failure_code) end))
          (some failure_code) (pure tt) times.result_id times.started times.updated db
          nothing_InsertsOnly h
    complete_claim-IsWellFormed times claimed (some x) db h =
        complete_with_effects-IsWellFormed digest claimed x.target_state x.result x.error_code
          (effect x) times.result_id times.started times.updated db (only x) h

    finish_claim-IsWellFormed :
        (times : FinishTimes) (claimed : Option ClaimedJob) (db : Tables)
        → IsWellFormed db
        → IsWellFormed (finish_with times claimed db).1
    unfolding finish_claim
    finish_claim-IsWellFormed times none db h = h
    finish_claim-IsWellFormed times (some claimed) db h =
        lift_keeps IsWellFormed (execute_safely parse_uuid uuid_text (execute claimed) claimed) _
          (interlude db) (others db h)
          λ execution _.
            lift_keeps IsWellFormed (cap_research_retries execution claimed) _ (interlude db)
              (others db h)
              λ capped _.
                then_keeps IsWellFormed (λ s. unless_stale (complete_with times claimed capped s)) _
                  (interlude db)
                  (subst IsWellFormed
                    (sym (unless_stale_writes (complete_with times claimed capped (interlude db))))
                    (complete_claim-IsWellFormed times claimed capped (interlude db) (others db h)))
                  λ completed t w. after_completion-IsWellFormed times claimed capped completed t w

    -- A round of the generation worker keeps the tables well-formed, whatever the runner does, when
    -- those who write to them meanwhile keep them so and the repository writes nothing to them but
    -- new pending jobs.
    pub run_generation_once-IsWellFormed :
        (times : ClaimTimes) (locked : ℕ → Bool) (token attempt_id : ℕ) (finish : FinishTimes)
        (owner : String) (seconds : ℤ) (kinds : List String) (db : Tables)
        → IsWellFormed db
        → IsWellFormed
            (run_generation_once parse_uuid uuid_text digest execute effect interlude meanwhile
              times locked token attempt_id finish owner seconds kinds db).1
    unfolding run_generation_once
    run_generation_once-IsWellFormed times locked token attempt_id finish owner seconds kinds db h =
        lift_keeps IsWellFormed
          (require (not (is_empty kinds) && all_by (contains generation_kinds) kinds) value_error) _
          db h
          λ _ _.
            then_keeps IsWellFormed
              (claim_next times locked token attempt_id owner seconds (some kinds)) _ db
              (claim_next-IsWellFormed times locked token attempt_id owner seconds (some kinds) db
                h)
              λ found t w. finish_claim-IsWellFormed finish found t w
