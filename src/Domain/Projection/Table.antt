-- ===== src/Domain/Projection/Table.antt =====
-- The combination table of the two generation runs, and what a malformed pair gives.
use Prim.Native.String.{◌++◌ as text_append}
use axit_project.Prelude.{
  List, String, none, ◌≡◌, refl, ◌≢◌, ◌⊎◌, ◌↔◌, true, false, [], ◌∷◌, some, arith, is_blank, ok,
  err, traverse, string_eq,
}
use axit_project.Errors.{Error}
use axit_project.Domain.Models.{
  ready, processing, needs_attention, GenerationKind, summary, research, GenerationRunState, queued,
  run_succeeded, run_failed_retryable, no_action, retry, is_active, is_failure,
  is_retryable_failure, kind_value, run_state_value,
}
use axit_project.Domain.Models.Records.{
  GenerationRunView, AggregateReason, GenerationAggregate, new_generation_run_view,
}
use axit_project.Domain.Projection.{code_or, failure_reason, project_runs}

-- A run that its constructor accepts: an error code, where there is one, is not blank.
abbrev pub IsValidRun : GenerationRunView → Type 0
IsValidRun run = new_generation_run_view run.kind run.state run.error_code ≡ ok run

fallback_not_blank :
    (kind : GenerationKind) (state : GenerationRunState)
    → is_blank (text_append (kind_value kind) (text_append "_" (run_state_value state))) ≡ false
unfolding is_blank
fallback_not_blank summary queued = refl
fallback_not_blank research queued = refl
fallback_not_blank _ _ = refl

blank_empty : is_blank "" ≡ true
unfolding is_blank
blank_empty = refl

-- The reason that a failed run gives.
abbrev reason_of : GenerationRunView → AggregateReason
reason_of run = record {
  code =
      code_or run.error_code
        (text_append (kind_value run.kind) (text_append "_" (run_state_value run.state)));
  kind = some run.kind;
  retryable = is_retryable_failure run.state;
}

failure_reason_total :
    (run : GenerationRunView) → IsValidRun run → failure_reason run ≡ ok (reason_of run)
unfolding failure_reason new_generation_run_view
failure_reason_total run valid = ground (arith, fallback_not_blank run.kind run.state)

-- The reason that a run gives: its error code, or its kind and state where it has none.
pub record GivesReason (run : GenerationRunView) (reason : AggregateReason) : Type 0 where
  pub kind : reason.kind ≡ some run.kind
  pub retryable_iff : (reason.retryable ≡ true) ↔ (run.state ≡ run_failed_retryable)
  pub coded : (code : String) → run.error_code ≡ some code → reason.code ≡ code
  pub named :
      run.error_code ≡ none
      → reason.code
        ≡ text_append (kind_value run.kind) (text_append "_" (run_state_value run.state))

reason_of-GivesReason : (run : GenerationRunView) → IsValidRun run → GivesReason run (reason_of run)
unfolding new_generation_run_view
reason_of-GivesReason run valid = record {
  kind = refl;
  retryable_iff = (λ h. ground arith, λ h. ground arith);
  coded = λ code e. ground (arith, valid, string_eq.beq_iff code "", blank_empty);
  named = λ e. ground arith;
}

-- The reasons of a pair in need of attention: one for each run that failed, the summary's first.
pub record IsExplained (s r : GenerationRunView) (reasons : List AggregateReason) : Type 0 where
  pub both :
      is_failure s.state ≡ true
      → is_failure r.state ≡ true
      → (x : AggregateReason) × (y : AggregateReason) × (reasons ≡ x ∷ y ∷ [])
        × GivesReason s x
        × GivesReason r y
  pub summary_only :
      is_failure s.state ≡ true
      → is_failure r.state ≡ false
      → (x : AggregateReason) × (reasons ≡ x ∷ []) × GivesReason s x
  pub research_only :
      is_failure s.state ≡ false
      → is_failure r.state ≡ true
      → (y : AggregateReason) × (reasons ≡ y ∷ []) × GivesReason r y

-- What the pair of runs makes of the session.
pub record IsProjected (s r : GenerationRunView) (a : GenerationAggregate) : Type 0 where
  pub ready_iff : (a.state ≡ ready) ↔ ((s.state ≡ run_succeeded) × (r.state ≡ run_succeeded))
  pub processing_iff :
      (a.state ≡ processing) ↔ ((is_active s.state ≡ true) ⊎ (is_active r.state ≡ true))
  pub attention_iff : (a.state ≡ needs_attention) ↔ (
      (is_active s.state ≡ false)
      × (is_active r.state ≡ false)
      × ((is_failure s.state ≡ true) ⊎ (is_failure r.state ≡ true)))
  pub retry_iff : (a.retry_available ≡ true) ↔ (
      (is_active s.state ≡ false)
      × (is_active r.state ≡ false)
      × ((s.state ≡ run_failed_retryable) ⊎ (r.state ≡ run_failed_retryable)))
  pub retry_action : (a.action ≡ retry) ↔ (a.retry_available ≡ true)
  pub no_action_iff : (a.action ≡ no_action) ↔ (a.state ≢ needs_attention)
  pub no_reasons : a.state ≢ needs_attention → a.reasons ≡ []
  pub reasons : a.state ≡ needs_attention → IsExplained s r a.reasons

module _ (s r : GenerationRunView) (valid_s : IsValidRun s) (valid_r : IsValidRun r) where
  pub project_runs_total : (e : Error) → project_runs (s ∷ r ∷ []) ≢ err e
  unfolding project_runs traverse
  project_runs_total e h =
      ground (arith, failure_reason_total s valid_s, failure_reason_total r valid_r)

  no_reasons_lem :
      (a : GenerationAggregate)
      → project_runs (s ∷ r ∷ []) ≡ ok a
      → a.state ≢ needs_attention
      → a.reasons ≡ []
  unfolding project_runs traverse
  no_reasons_lem a h fine =
      ground (arith, failure_reason_total s valid_s, failure_reason_total r valid_r)

  explained :
      (a : GenerationAggregate)
      → project_runs (s ∷ r ∷ []) ≡ ok a
      → a.state ≡ needs_attention
      → IsExplained s r a.reasons
  unfolding project_runs traverse
  explained a h attention =
      let s_reason = reason_of-GivesReason s valid_s in
      let r_reason = reason_of-GivesReason r valid_r in
      let s_total = failure_reason_total s valid_s in
      let r_total = failure_reason_total r valid_r in
      record {
        both = λ e1 e2. (reason_of s, reason_of r, ground arith, s_reason, r_reason);
        summary_only = λ e1 e2. (reason_of s, ground arith, s_reason);
        research_only = λ e1 e2. (reason_of r, ground arith, r_reason);
      }

  pub project_runs-IsProjected :
      (a : GenerationAggregate) → project_runs (s ∷ r ∷ []) ≡ ok a → IsProjected s r a
  unfolding project_runs traverse
  project_runs-IsProjected a h =
      let s_total = failure_reason_total s valid_s in
      let r_total = failure_reason_total r valid_r in
      record {
        ready_iff = ground arith;
        processing_iff = ground arith;
        attention_iff = ground arith;
        retry_iff = ground arith;
        retry_action = ground arith;
        no_action_iff = ground arith;
        no_reasons = no_reasons_lem a h;
        reasons = explained a h;
      }
