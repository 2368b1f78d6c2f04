-- ===== src/Domain/Projection/Runs.antt =====
-- Whole lists of runs: one of each kind, or a broken pair.
use axit_project.Prelude.{
  ◌≡◌, refl, ◌∙◌, ◌≢◌, ◌⊎◌, inl, inr, false, List, [], ◌∷◌, length, arith, is_blank, ok, err,
  Result-cases,
}
use axit_project.Errors.{Error}
use axit_project.Domain.Models.{needs_attention, summary, research, operator_or_replan}
use axit_project.Domain.Models.Records.{
  GenerationRunView, AggregateReason, GenerationAggregate, new_aggregate_reason,
}
use axit_project.Domain.Projection.{
  runs_of, project_runs, canonical_run_invariant_reasons, project_generation_aggregate,
}
use axit_project.Domain.Projection.Table.{
  IsValidRun, IsProjected, project_runs_total, project_runs-IsProjected,
}

missing_not_blank : is_blank "invariant_error_missing_run" ≡ false
unfolding is_blank
missing_not_blank = refl

duplicate_not_blank : is_blank "invariant_error_duplicate_run" ≡ false
unfolding is_blank
duplicate_not_blank = refl

module _ (s r : GenerationRunView) (runs : List GenerationRunView)
    (one_summary : runs_of summary runs ≡ s ∷ [])
    (one_research : runs_of research runs ≡ r ∷ []) where
  project_canonical : project_generation_aggregate runs ≡ project_runs (s ∷ r ∷ [])
  unfolding project_generation_aggregate canonical_run_invariant_reasons
  project_canonical = rw (one_summary, one_research)

  -- When there is exactly one run of each kind, both with an error code that is not blank or none,
  -- the projection succeeds with the state, the retry and the action of the combination table. A
  -- session in need of attention has one reason for each run that failed, the summary's first, with
  -- the run's kind, its error code or else its kind and state, and whether it failed retryably; any
  -- other session has none.
  pub project_generation_aggregate-IsProjected :
      IsValidRun s
      → IsValidRun r
      → (a : GenerationAggregate) × (project_generation_aggregate runs ≡ ok a) × IsProjected s r a
  project_generation_aggregate-IsProjected valid_s valid_r =
      elim (Result-cases (project_runs (s ∷ r ∷ []))) [
        | inl (a, h) ↦ (a, project_canonical ∙ h, project_runs-IsProjected s r valid_s valid_r a h)
        | inr (e, h) ↦ absurd (project_runs_total s r valid_s valid_r e h)
      ]

abbrev pub IsBroken : List GenerationRunView → List GenerationRunView → Type 0
IsBroken summaries researches = (length summaries ≢ 1) ⊎ (length researches ≢ 1)

reasons_ne :
    (summaries researches : List GenerationRunView)
    → IsBroken summaries researches
    → (canonical_run_invariant_reasons summaries researches ≢ ok [])
      × ((e : Error) → canonical_run_invariant_reasons summaries researches ≢ err e)
unfolding canonical_run_invariant_reasons new_aggregate_reason
reasons_ne summaries researches h = (
  λ e. ground (arith, missing_not_blank, duplicate_not_blank),
  λ x e. ground (arith, missing_not_blank, duplicate_not_blank),
)

reasons_of_broken :
    (summaries researches : List GenerationRunView)
    → IsBroken summaries researches
    → (first : AggregateReason) × (more : List AggregateReason) × (canonical_run_invariant_reasons
          summaries researches
        ≡ ok (first ∷ more))
reasons_of_broken summaries researches h =
    let (not_none, not_err) = reasons_ne summaries researches h in
    elim (Result-cases (canonical_run_invariant_reasons summaries researches)) [
      | inl ([], e) ↦ absurd (not_none e)
      | inl (first ∷ more, e) ↦ (first, more, e)
      | inr (x, e) ↦ absurd (not_err x e)
    ]

-- When a kind has no run or more than one, the projection succeeds with `needs_attention`, no retry
-- and the operator's action.
pub project_generation_aggregate-broken :
    (runs : List GenerationRunView)
    → IsBroken (runs_of summary runs) (runs_of research runs)
    → (a : GenerationAggregate) × (project_generation_aggregate runs ≡ ok a)
      × (a.state ≡ needs_attention)
      × (a.retry_available ≡ false)
      × (a.action ≡ operator_or_replan)
unfolding project_generation_aggregate
project_generation_aggregate-broken runs h =
    let (first, more, e) = reasons_of_broken (runs_of summary runs) (runs_of research runs) h in
    (
      record {
        state = needs_attention;
        reasons = first ∷ more;
        retry_available = false;
        action = operator_or_replan;
      },
      rw e,
      refl,
      refl,
      refl,
    )
