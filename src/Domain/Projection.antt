-- ===== src/Domain/Projection.antt =====
-- apps/api/app/domain/policies.py: the session's result, projected from its two generation runs.
pub mod Table
pub mod Runs
use Prim.Native.String.{◌++◌ as text_append}
use axit_project.Prelude.{
  ℕ, Bool, true, false, List, [], ◌∷◌, ◌++◌, String, Option, none, some, ◌==◌, ltb, length,
  filter_by, any_by, all_by, if◌then◌else◌, Result, ok, err, ◌>>=◌, traverse, string_eq, nat_eqb,
}
use axit_project.Errors.{Error, domain_invariant_error}
use axit_project.Domain.Models.{
  ready, processing, needs_attention, GenerationKind, summary, research, no_action, retry,
  operator_or_replan, is_active, is_failure, is_retryable_failure, is_succeeded, kind_value,
  run_state_value,
}
use axit_project.Domain.Models.Records.{
  GenerationRunView, AggregateReason, GenerationAggregate, new_aggregate_reason,
}

abbrev pub is_kind : GenerationKind → GenerationRunView → Bool
is_kind summary run = elim run.kind [ summary ↦ true | research ↦ false ]
is_kind research run = elim run.kind [ summary ↦ false | research ↦ true ]

-- `runs_by_kind[kind]`: the runs of a kind, in the order in which they came
abbrev pub runs_of : GenerationKind → List GenerationRunView → List GenerationRunView
runs_of kind runs = filter_by (is_kind kind) runs

-- One round of the loop over the kinds.
invariant_reason : GenerationKind → ℕ → Result Error (List AggregateReason)
unfolding new_aggregate_reason
invariant_reason kind count =
    if nat_eqb count 0
    then (do
      reason ← new_aggregate_reason "invariant_error_missing_run" (some kind) false
      ok (reason ∷ []))
    else if ltb 1 count
    then (do
      reason ← new_aggregate_reason "invariant_error_duplicate_run" (some kind) false
      ok (reason ∷ []))
    else ok []

unfoldable pub canonical_run_invariant_reasons :
    List GenerationRunView → List GenerationRunView → Result Error (List AggregateReason)
unfolding invariant_reason
canonical_run_invariant_reasons summaries researches = do
  first ← invariant_reason summary (length summaries)
  second ← invariant_reason research (length researches)
  ok (first ++ second)

-- `run.error_code or fallback`
abbrev pub code_or : Option String → String → String
code_or none fallback = fallback
code_or (some code) fallback = if code == "" then fallback else code

unfoldable pub failure_reason : GenerationRunView → Result Error AggregateReason
unfolding new_aggregate_reason
failure_reason run =
    let fallback =
      text_append (kind_value run.kind) (text_append "_" (run_state_value run.state)) in
    new_aggregate_reason (code_or run.error_code fallback) (some run.kind)
      (is_retryable_failure run.state)

-- The tail of the function, from the failure reasons on.
from_failures : List AggregateReason → Result Error GenerationAggregate
from_failures [] = err domain_invariant_error
from_failures (first ∷ rest) =
    let retry_available = any_by (λ (r : AggregateReason). r.retryable) (first ∷ rest) in
    ok (record {
      state = needs_attention;
      reasons = first ∷ rest;
      retry_available = retry_available;
      action = if retry_available then retry else operator_or_replan;
    })

-- The two runs, one of each kind.
pub project_runs : List GenerationRunView → Result Error GenerationAggregate
unfolding from_failures traverse
project_runs runs =
    if all_by (λ (r : GenerationRunView). is_succeeded r.state) runs
    then ok (record { state = ready; reasons = []; retry_available = false; action = no_action })
    else if any_by (λ (r : GenerationRunView). is_active r.state) runs
    then ok
        (record { state = processing; reasons = []; retry_available = false; action = no_action })
    else (do
      failure_reasons ←
          traverse failure_reason (filter_by (λ (r : GenerationRunView). is_failure r.state) runs)
      from_failures failure_reasons)

-- `runs_by_kind[kind][0]`, where there is one.
abbrev pub first_of_kind : List GenerationRunView → List GenerationRunView
first_of_kind [] = []
first_of_kind (run ∷ _) = run ∷ []

conclude :
    List AggregateReason
    → List GenerationRunView
    → List GenerationRunView
    → Result Error GenerationAggregate
unfolding project_runs
conclude [] summaries researches =
    project_runs (first_of_kind summaries ++ first_of_kind researches)
conclude (reason ∷ more) summaries researches = ok (record {
  state = needs_attention;
  reasons = reason ∷ more;
  retry_available = false;
  action = operator_or_replan;
})

unfoldable pub project_generation_aggregate :
    List GenerationRunView → Result Error GenerationAggregate
unfolding conclude
project_generation_aggregate canonical_runs = do
  let summaries = runs_of summary canonical_runs
  let researches = runs_of research canonical_runs
  invariant_reasons ← canonical_run_invariant_reasons summaries researches
  conclude invariant_reasons summaries researches
